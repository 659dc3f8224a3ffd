-- ===== src/Messenger/Server/Friendly.antt =====
-- src/messenger/messenger_server.cpp: friendship is mutual and never with oneself, whatever is sent.
pub mod Dispatch
use mathlib.Core.Path.{subst}
use hovorun.Prelude.{
  Bool-cases, Option-cases, if_elim, All, ℕ, ◌≡◌, sym, ◌∙◌, inl, inr, Bool, true, false, some, List,
  [], ◌∷◌, arith,
}
use hovorun.Containers.IdMap
use hovorun.Containers.IdMap.{IdMap}
use hovorun.Containers.TextMap.{same_text, same_text_eq, TextMap}
use hovorun.Containers.TextSet
use hovorun.Containers.TextSet.{TextSet}
use hovorun.Net.Message.Reader.{Result, Result-cases, Reads, read_u8, read_u16, ok, err}
use hovorun.Proudnet.Server
use hovorun.App.Accounts
use hovorun.Messenger.Clms
use hovorun.Messenger.Mscl
use hovorun.Messenger.Messages
use hovorun.Messenger.Server.{MessengerUser, MessengerServer, named, friends_of}
use hovorun.Messenger.Server.Friendship.{
  is_friend, are, answer_friend-is_friend, delete_friend-is_friend,
}
use hovorun.Messenger.Server.Dispatch.{reading, set_b, set_a, change_position, answer_with}
use hovorun.Messenger.Server.Friends.{add_friend, answered, answer_friend, delete_friend}

-- A user that waits for its own answer.
abbrev pub asks_self : MessengerUser → Bool
asks_self u = TextSet.contains u.account.username u.pending_requests

abbrev pub Asks : MessengerUser → Type 0
Asks u = asks_self u ≡ false

-- Friendship is mutual, nobody is its own friend, and nobody has a request of its own pending.
pub record FriendlyParts (users : IdMap MessengerUser) (m : TextMap TextSet) : Type 0 where
  pub both : (a b : List ℕ) → is_friend a b m ≡ is_friend b a m
  pub others : (a : List ℕ) → is_friend a a m ≡ false
  pub asked : All (λ (e : ℕ × MessengerUser). Asks e.1) users

abbrev pub IsFriendly : MessengerServer → Type 0
IsFriendly s = FriendlyParts s.users s.friendships

pub put_user-FriendlyParts :
    (k : ℕ) (u : MessengerUser) (users : IdMap MessengerUser) (m : TextMap TextSet)
    → Asks u
    → FriendlyParts users m
    → FriendlyParts (IdMap.put k u users) m
put_user-FriendlyParts k u users m h f = record {
  both = f.both;
  others = f.others;
  asked = IdMap.put-All Asks k u users f.asked h;
}

pub removed-FriendlyParts :
    (k : ℕ) (users : IdMap MessengerUser) (m : TextMap TextSet)
    → FriendlyParts users m
    → FriendlyParts (IdMap.remove k users) m
removed-FriendlyParts k users m f = record {
  both = f.both;
  others = f.others;
  asked = IdMap.remove-All Asks k users f.asked;
}

-- An action of a user that has no request of its own pending keeps the server friendly.
abbrev pub Keeps : {A : Type 0} → (MessengerUser → A → MessengerServer → MessengerServer) → Type 0
Keeps {A} act =
    (u : MessengerUser) (x : A) (s : MessengerServer)
    → Asks u
    → IsFriendly s
    → IsFriendly (act u x s)

pub reading-Keeps :
    {A : Type 0} (reads : Reads A) (act : MessengerUser → A → MessengerServer → MessengerServer)
    → Keeps act
    → Keeps (reading reads act)
unfolding reading
reading-Keeps {A} reads act keeps u params s h f = at (reads params)
  where
    at :
        (result : Result (A × List ℕ))
        → IsFriendly (elim result [ err e ↦ s | ok (a, rest) ↦ act u a s ])
    at (err x) = f
    at (ok (a, rest)) = keeps u a s h f

pub set_b-Keeps : Keeps set_b
set_b-Keeps u params s h f = elim (Result-cases (read_u8 params)) [
  | inl (e, q) ↦ rw (q, set_b) f
  | inr ((b, rest), q) ↦
      rw (q, set_b)
        (put_user-FriendlyParts u.host (record u { position_b = b }) s.users s.friendships h f)
]

pub set_a-Keeps : Keeps set_a
set_a-Keeps u params s h f = elim (Result-cases (read_u8 params)) [
  | inl (e, q) ↦ rw (q, set_a) f
  | inr ((a, rest), q) ↦
      let now = record u { position_a = a } in
      rw (q, set_a)
        (set_b-Keeps now rest (record s { users = IdMap.put u.host now s.users }) h
          (put_user-FriendlyParts u.host now s.users s.friendships h f))
]

pub change_position-Keeps : Keeps change_position
unfolding change_position
change_position-Keeps u params s h f = elim (Result-cases (read_u16 params)) [
  | inl (e, q) ↦ rw (q, change_position) f
  | inr ((room, rest), q) ↦
      let now = record u { room = room } in
      rw (q, change_position)
        (set_a-Keeps now rest (record s { users = IdMap.put u.host now s.users }) h
          (put_user-FriendlyParts u.host now s.users s.friendships h f))
]

-- The user that online finds has that name, and no request of its own pending.
named_lem :
    (name : List ℕ) (users : IdMap MessengerUser) (u : MessengerUser)
    → All (λ (e : ℕ × MessengerUser). Asks e.1) users
    → named name users ≡ some u
    → (same_text u.account.username name ≡ true) × Asks u
unfolding named
named_lem name [] u h e = cc
named_lem name ((k, w) ∷ users) u h e = elim (Bool-cases (same_text w.account.username name)) [
  | inl q ↦
      let here : some w ≡ some u = rw (named, q) at e in
      let same : w ≡ u = cc in
      subst (λ (x : MessengerUser). (same_text x.account.username name ≡ true) × Asks x) same
        (q, h.0)
  | inr q ↦ named_lem name users u h.1 (rw (named, q) at e)
]

pub add_friend-Keeps : Keeps add_friend
unfolding add_friend
add_friend-Keeps u target s h f = elim (Option-cases (named target s.users)) [
  | inl q ↦ rw (q, add_friend) f
  | inr (other, q) ↦
      let (name, own) = named_lem target s.users other f.asked q in
      rw (q, add_friend)
        (if_elim IsFriendly (same_text target u.account.username) (λ c. f)
          (λ c.
            if_elim IsFriendly
              (TextSet.contains target (friends_of u.account.username s.friendships)) (λ d. f)
              (λ d.
                let same : other.account.username ≡ target =
                  same_text_eq other.account.username target name in
                let asked : Asks (record other {
                  pending_requests = TextSet.insert u.account.username other.pending_requests;
                }) =
                  rw
                    (
                      TextSet.contains-insert u.account.username other.account.username
                          other.pending_requests,
                      own,
                    )
                    (rw (same) (ground arith)) in
                put_user-FriendlyParts other.host _ s.users s.friendships asked f)))
]

answered-others :
    (u : MessengerUser) (requester a : List ℕ)
    → Asks u
    → TextSet.contains requester u.pending_requests ≡ true
    → are u.account.username requester a a ≡ false
answered-others u requester a h e =
    let apart : same_text a u.account.username ≡ true
        → same_text a requester ≡ true
        → false ≡ true =
      λ p q.
        let one : a ≡ u.account.username = same_text_eq a u.account.username p in
        let two : a ≡ requester = same_text_eq a requester q in
        let self : u.account.username ≡ requester = sym one ∙ two in sym h ∙ (rw self e) in
    ground arith

pub answer_with-Keeps : Keeps answer_with
unfolding answer_with answer_friend answered
answer_with-Keeps u (requester, accept) s h f =
    elim (Bool-cases (TextSet.contains requester u.pending_requests)) [
      | inr e ↦ rw (e, answer_with, answer_friend) f
      | inl e ↦
          let law = λ (x y : List ℕ). answer_friend-is_friend u requester x y accept s in
          let kept : FriendlyParts (answer_friend u requester accept s).users
              (answer_friend u requester accept s).friendships =
            record {
              both = λ a b. let old = f.both a b in rw (law a b, law b a) (ground arith);
              others = λ a.
                  let old = f.others a in
                  let no = answered-others u requester a h e in rw (law a a) (ground arith);
              asked =
                  let now = record u {
                    pending_requests = TextSet.erase requester u.pending_requests;
                  } in
                  let asked : Asks now =
                    rw (TextSet.contains-erase requester u.account.username u.pending_requests, h)
                      (ground arith) in
                  rw (e, answer_friend) (IdMap.put-All Asks u.host now s.users f.asked asked);
            } in
          kept
    ]

pub delete_friend-Keeps : Keeps delete_friend
unfolding delete_friend
delete_friend-Keeps u target s h f =
    let law = λ (x y : List ℕ). delete_friend-is_friend u target x y s in
    record {
      both = λ a b. let old = f.both a b in rw (law a b, law b a) (ground arith);
      others = λ a. let old = f.others a in rw (law a a) (ground arith);
      asked = f.asked;
    }
