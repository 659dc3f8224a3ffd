-- ===== src/Messenger/Server/Spec.antt =====
-- src/messenger/messenger_server.cpp against what it promises of friends: an abstract state that is a
-- relation between names, and the steps that it may make.
pub mod Refines
use mathlib.Core.Path.{subst}
use hovorun.Prelude.{
  Bool-cases, Option-cases, if_elim, ℕ, ◌≡◌, refl, sym, ap, ◌∙◌, inl, inr, Bool, true, false, not,
  ◌&&◌, ◌||◌, List, arith,
}
use hovorun.Containers.IdMap
use hovorun.Containers.TextMap.{same_text, same_text_eq}
use hovorun.Containers.TextSet
use hovorun.Net.Message.Reader.{Result, Result-cases, Reads, read_u8, read_u16, ok, err}
use hovorun.Proudnet.Server
use hovorun.App.Accounts
use hovorun.Messenger.Clms
use hovorun.Messenger.Mscl
use hovorun.Messenger.Messages
use hovorun.Messenger.Server.{MessengerUser, MessengerServer, named, by_index, friends_of}
use hovorun.Messenger.Server.Friends.{add_friend, delete_friend}
use hovorun.Messenger.Server.Friendship.{
  is_friend, are, answer_friend-is_friend, delete_friend-is_friend,
}
use hovorun.Messenger.Server.Friendly.{Asks}
use hovorun.Messenger.Server.Dispatch.{
  reading, set_b, set_a, change_position, answer_with, delete_found, delete_indexed,
}
use hovorun.Containers.TextSet.{TextSet}

-- Who is whose friend.
abbrev pub Friends : Type 0
Friends = List ℕ → List ℕ → Bool

-- Nothing changes; or two people become friends of each other; or two people are friends no more.
pub data Step (p q : Friends) : Type 0 where
  stay : ((x y : List ℕ) → q x y ≡ p x y) → Step p q
  agree :
      (a b : List ℕ)
      → same_text a b ≡ false
      → ((x y : List ℕ) → q x y ≡ (are a b x y || p x y))
      → Step p q
  part : (a b : List ℕ) → ((x y : List ℕ) → q x y ≡ (not (are a b x y) && p x y)) → Step p q

-- The abstract state of the server.
abbrev pub friends : MessengerServer → Friends
friends s = λ x y. is_friend x y s.friendships

-- An action that makes one step at most.
abbrev pub Steps : {A : Type 0} → (MessengerUser → A → MessengerServer → MessengerServer) → Type 0
Steps {A} act =
    (u : MessengerUser) (x : A) (s : MessengerServer)
    → Asks u
    → Step (friends s) (friends (act u x s))

-- An action that leaves the friendships.
abbrev pub Stays : {A : Type 0} → (MessengerUser → A → MessengerServer → MessengerServer) → Type 0
Stays {A} act =
    (u : MessengerUser) (x : A) (s : MessengerServer) → (act u x s).friendships ≡ s.friendships

pub idle : (s t : MessengerServer) → t.friendships ≡ s.friendships → Step (friends s) (friends t)
idle s t e = stay (λ x y. ap (is_friend x y) e)

pub reading-Steps :
    {A : Type 0} (reads : Reads A) (act : MessengerUser → A → MessengerServer → MessengerServer)
    → Steps act
    → Steps (reading reads act)
unfolding reading
reading-Steps {A} reads act steps u params s h = elim (Result-cases (reads params)) [
  | inl (e, q) ↦ rw (q, reading) (idle s s refl)
  | inr ((a, rest), q) ↦
      subst
        (λ (r : Result (A × List ℕ)).
          Step (friends s) (friends (elim r [ err e ↦ s | ok (a, rest) ↦ act u a s ])))
        (sym q) (steps u a s h)
]

pub change_position-Stays : Stays change_position
unfolding change_position
change_position-Stays u params s = elim (Result-cases (read_u16 params)) [
  | inl (e, q) ↦ rw (q, change_position) refl
  | inr ((room, rest), q) ↦ elim (Result-cases (read_u8 rest)) [
    | inl (e, c) ↦ rw (q, change_position, set_a, c) refl
    | inr ((a, rest'), c) ↦ elim (Result-cases (read_u8 rest')) [
      | inl (e, d) ↦ rw (q, change_position, set_a, c, set_b, d) refl
      | inr ((b, rest''), d) ↦ rw (q, change_position, set_a, c, set_b, d) refl
    ]
  ]
]

pub add_friend-Stays : Stays add_friend
unfolding add_friend
add_friend-Stays u target s = elim (Option-cases (named target s.users)) [
  | inl q ↦ rw (q, add_friend) refl
  | inr (other, q) ↦
      rw (q, add_friend)
        (if_elim (λ (t : MessengerServer). t.friendships ≡ s.friendships)
          (same_text target u.account.username) (λ c. refl)
          (λ c.
            if_elim (λ (t : MessengerServer). t.friendships ≡ s.friendships)
              (TextSet.contains target (friends_of u.account.username s.friendships)) (λ d. refl)
              (λ d. refl)))
]

pub answer_with-Steps : Steps answer_with
unfolding answer_with
answer_with-Steps u (requester, accept) s h =
    let name = u.account.username in
    let law = λ (x y : List ℕ). answer_friend-is_friend u requester x y accept s in
    elim (Bool-cases (TextSet.contains requester u.pending_requests)) [
      | inr e ↦ stay (λ x y. rw (law x y, e) refl)
      | inl e ↦ elim (Bool-cases accept) [
        | inr q ↦ stay (λ x y. rw (law x y, e, q) refl)
        | inl q ↦
            let apart : same_text name requester ≡ true → false ≡ true = λ c.
              let same : name ≡ requester = same_text_eq name requester c in sym h ∙ (rw same e) in
            agree name requester (ground arith) (λ x y. rw (law x y, e, q) refl)
      ]
    ]

pub delete_friend-Steps : Steps delete_friend
delete_friend-Steps u target s h =
    part u.account.username target (λ x y. delete_friend-is_friend u target x y s)

pub delete_indexed-Steps : Steps delete_indexed
unfolding delete_indexed
delete_indexed-Steps u index s h = elim (Option-cases (by_index index s)) [
  | inl q ↦ rw (q, delete_indexed, delete_found) (idle s s refl)
  | inr (target, q) ↦
      rw (q, delete_indexed, delete_found) (delete_friend-Steps u target.account.username s h)
]

pub at_rest :
    {A : Type 0} (act : MessengerUser → A → MessengerServer → MessengerServer)
    → Stays act
    → Steps act
at_rest act stays u x s h = idle s (act u x s) (stays u x s)
