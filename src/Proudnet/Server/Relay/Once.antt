-- ===== src/Proudnet/Server/Relay/Once.antt =====
-- src/proudnet/server.cpp, relay_unreliable: whom it sends the message to, and how often.
use hovorun.Prelude.{
  if◌then◌else◌, Bool-cases, Option-cases, none, some, ℕ, ◌≡◌, refl, sym, ap, ◌∙◌, inl, inr, false,
  List, [], ◌∷◌, ◌++◌, map, flatten, arith,
}
use hovorun.Containers.IdSet
use hovorun.Containers.IdSet.{IdSet}
use hovorun.Containers.IdMap
use hovorun.Containers.IdMap.{IdMap}
use mathlib.Core.Path.{ap₂}
use hovorun.Net.Message.Reader.{ok}
use hovorun.Net.Message.Writer.{Writer}
use hovorun.Proudnet.Server.{Server, send}
use hovorun.Proudnet.Server.Relay.{
  except, destinations, read_unreliable, unreliable_relay2_message, relay_unreliable, send_once,
  send_unreliable,
}

-- One message to each id, in order.
abbrev pub send_each : Writer → List ℕ → Server → Server
send_each w [] s = s
send_each w (id ∷ ids) s = send_each w ids (send id w false s)

-- The first occurrence of each number.
abbrev pub distinct : List ℕ → List ℕ
distinct [] = []
distinct (x ∷ xs) = x ∷ IdSet.erase x (distinct xs)

-- The ids that a destination stands for: the members of a group without the sender, and any other id
-- itself.
abbrev pub stands_for : IdMap IdSet → ℕ → ℕ → List ℕ
stands_for groups sender dest = elim (IdMap.find dest groups) [
  | none ↦ dest ∷ []
  | some members ↦ IdSet.erase sender members
]

abbrev minus : IdSet → List ℕ → List ℕ
minus sent [] = []
minus sent (x ∷ xs) = let rest = minus sent xs in if IdSet.contains x sent then rest else x ∷ rest

minus-insert :
    (k : ℕ) (sent : IdSet) (xs : List ℕ)
    → minus (IdSet.insert k sent) xs ≡ minus sent (IdSet.erase k xs)
unfolding IdSet.erase
minus-insert k sent [] = refl
minus-insert k sent (x ∷ xs) =
    ground (arith, minus-insert k sent xs, IdSet.contains-insert k x sent)

minus-nil : (xs : List ℕ) → minus [] xs ≡ xs
unfolding IdSet.contains
minus-nil [] = refl
minus-nil (x ∷ xs) = ap (◌∷◌ x) (minus-nil xs)

send_once-each :
    (w : Writer) (ids : List ℕ) (sent : IdSet) (s : Server)
    → (send_once w ids (sent, s)).1 ≡ send_each w (minus sent (distinct ids)) s
unfolding send_once
send_once-each w [] sent s = refl
send_once-each w (id ∷ ids) sent s = elim (Bool-cases (IdSet.contains id sent)) [
  | inl e ↦
      rw (e, send_once)
        (send_once-each w ids (IdSet.insert id sent) s
          ∙ ap (λ xs. send_each w xs s) (minus-insert id sent (distinct ids)))
  | inr e ↦
      rw (e, send_once)
        (send_once-each w ids (IdSet.insert id sent) (send id w false s)
          ∙ ap (λ xs. send_each w xs (send id w false s)) (minus-insert id sent (distinct ids)))
]

send_once-append :
    (w : Writer) (xs ys : List ℕ) (st : IdSet × Server)
    → send_once w (xs ++ ys) st ≡ send_once w ys (send_once w xs st)
unfolding send_once
send_once-append w [] ys st = refl
send_once-append w (x ∷ xs) ys (sent, s) = send_once-append w xs ys _

send_unreliable-once :
    (groups : IdMap IdSet) (from : ℕ) (w : Writer) (dests : List ℕ) (st : IdSet × Server)
    → send_unreliable groups from w dests st
      ≡ send_once w (flatten (map (destinations groups from) dests)) st
unfolding send_unreliable flatten
send_unreliable-once groups from w [] st = unfold send_once in refl
send_unreliable-once groups from w (dest ∷ dests) st =
    send_unreliable-once groups from w dests (send_once w (destinations groups from dest) st)
    ∙ sym (send_once-append w (destinations groups from dest) _ st)

except-erase : (sender : ℕ) (members : IdSet) → except sender members ≡ IdSet.erase sender members
unfolding IdSet.erase
except-erase sender [] = refl
except-erase sender (member ∷ members) = ground (arith, except-erase sender members)

destinations_lem :
    (groups : IdMap IdSet) (sender dest : ℕ)
    → destinations groups sender dest ≡ stands_for groups sender dest
destinations_lem groups sender dest = elim (Option-cases (IdMap.find dest groups)) [
  | inl e ↦ rw (destinations, stands_for, e) refl
  | inr (members, e) ↦ rw (destinations, stands_for, e) (except-erase sender members)
]

all_destinations :
    (groups : IdMap IdSet) (sender : ℕ) (dests : List ℕ)
    → flatten (map (destinations groups sender) dests)
      ≡ flatten (map (stands_for groups sender) dests)
unfolding flatten
all_destinations groups sender [] = refl
all_destinations groups sender (dest ∷ dests) =
    ap₂ ◌++◌ (destinations_lem groups sender dest) (all_destinations groups sender dests)

-- A relayed unreliable message goes, under the id of the peer it came from, once to each id that the
-- list of destinations stands for, where a group stands for its members without that peer and any
-- other id for itself; the order is that of the first time each comes up.
pub relay_unreliable-distinct :
    (from : ℕ) (r rest : List ℕ) (dests inner : List ℕ) (s : Server)
    → read_unreliable r ≡ ok ((dests, inner), rest)
    → relay_unreliable from r s
      ≡ send_each
          (unreliable_relay2_message from inner)
          (distinct (flatten (map (stands_for s.groups from) dests)))
          s
unfolding relay_unreliable
relay_unreliable-distinct from r rest dests inner s e =
    let w = unreliable_relay2_message from inner in
    let ids = flatten (map (destinations s.groups from) dests) in
    rw (e, relay_unreliable)
      (ap (λ t. t.1) (send_unreliable-once s.groups from w dests ([], s))
        ∙ send_once-each w ids [] s
        ∙ ap (λ xs. send_each w xs s) (minus-nil (distinct ids))
        ∙ ap (λ xs. send_each w (distinct xs) s) (all_destinations s.groups from dests))
