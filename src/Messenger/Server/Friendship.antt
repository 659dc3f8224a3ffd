-- ===== src/Messenger/Server/Friendship.antt =====
-- src/messenger/messenger_server.cpp: who is whose friend, after requests, answers and deletions.
use hovorun.Prelude.{
  if◌then◌else◌, Bool-cases, ℕ, ◌≡◌, refl, inl, inr, Bool, true, not, ◌&&◌, ◌||◌, List, arith,
}
use hovorun.Containers.TextMap
use hovorun.Containers.TextMap.{TextMap, same_text, same_text_eq}
use hovorun.Containers.TextSet
use hovorun.Containers.TextSet.{TextSet}
use hovorun.Messenger.Server.{MessengerUser, MessengerServer, friends_of}
use hovorun.Messenger.Server.Friends.{befriend, forget, answered, answer_friend, delete_friend}

abbrev pub is_friend : List ℕ → List ℕ → TextMap TextSet → Bool
is_friend a b m = TextSet.contains b (friends_of a m)

friends_of-put :
    (a x : List ℕ) (friends : TextSet) (m : TextMap TextSet)
    → friends_of x (TextMap.put a friends m) ≡ (if same_text x a then friends else friends_of x m)
friends_of-put a x friends m = elim (Bool-cases (same_text x a)) [
  | inl e ↦ rw (TextMap.find-put a x friends m, e) refl
  | inr e ↦ rw (TextMap.find-put a x friends m, e) refl
]

same_friends :
    (a x y : List ℕ) (m : TextMap TextSet)
    → same_text x a ≡ true
    → is_friend x y m ≡ is_friend a y m
same_friends a x y m e = let same : x ≡ a = same_text_eq x a e in rw same refl

pub befriend_lem :
    (a b x y : List ℕ) (m : TextMap TextSet)
    → is_friend x y (befriend a b m) ≡ ((same_text x a && same_text y b) || is_friend x y m)
befriend_lem a b x y m =
    let same = same_friends a x y m in
    let inserted = TextSet.contains-insert b y (friends_of a m) in
    rw (friends_of-put a x (TextSet.insert b (friends_of a m)) m) (ground arith)

pub forget_lem :
    (a b x y : List ℕ) (m : TextMap TextSet)
    → is_friend x y (forget a b m) ≡ (not (same_text x a && same_text y b) && is_friend x y m)
forget_lem a b x y m =
    let same = same_friends a x y m in
    let erased = TextSet.contains-erase b y (friends_of a m) in
    rw (friends_of-put a x (TextSet.erase b (friends_of a m)) m) (ground arith)

-- Whether `x` and `y` are `a` and `b`, in either order.
abbrev pub are : List ℕ → List ℕ → List ℕ → List ℕ → Bool
are a b x y = (same_text x a && same_text y b) || (same_text x b && same_text y a)

-- An accepted answer to a pending request makes the two users friends of each other; a refusal, or an
-- answer to a request that is not pending, makes no friends; all other friendships stay.
pub answer_friend-is_friend :
    (u : MessengerUser) (requester x y : List ℕ) (accept : Bool) (s : MessengerServer)
    → is_friend x y (answer_friend u requester accept s).friendships ≡ (
        (TextSet.contains requester u.pending_requests
          && accept
          && are u.account.username requester x y)
        || is_friend x y s.friendships)
unfolding answer_friend answered
answer_friend-is_friend u requester x y accept s =
    let name = u.account.username in
    let first = befriend_lem name requester x y s.friendships in
    let both = befriend_lem requester name x y (befriend name requester s.friendships) in
    elim (Bool-cases (TextSet.contains requester u.pending_requests)) [
      | inr e ↦ rw (e, answer_friend) refl
      | inl e ↦ elim (Bool-cases accept) [
        | inr q ↦ rw (e, q, answer_friend, answered) refl
        | inl q ↦ rw (e, q, answer_friend, answered) (rw (both, first) (ground arith))
      ]
    ]

-- Deleting a friend ends that friendship on both sides and leaves all others.
pub delete_friend-is_friend :
    (u : MessengerUser) (target x y : List ℕ) (s : MessengerServer)
    → is_friend x y (delete_friend u target s).friendships
      ≡ (not (are u.account.username target x y) && is_friend x y s.friendships)
unfolding delete_friend
delete_friend-is_friend u target x y s =
    let name = u.account.username in
    rw
      (
        forget_lem target name x y (forget name target s.friendships),
        forget_lem name target x y s.friendships,
      )
      (ground arith)
