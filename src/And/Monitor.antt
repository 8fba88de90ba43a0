-- ===== src/And/Monitor.antt =====
-- What a run is held to: monitors that read its actions one by one.
use abyss_core.Prelude.{
  String, List, [], ◌∷◌, ◌++◌, Option, none, some, ◌≡◌, refl, ◌==◌, nat_eq, if◌then◌else◌, ltb,
  Option-cases, inl, inr, ℕ,
}
use mathlib.Core.Option
use abyss_core.Interfaces.{Uuid, Peer, Message}
use abyss_core.Interfaces.NeighborEvent.{session_ready, session_close}
use abyss_core.And.Effect.{Action, raised, sent, tx, w_branch, b_branch, Kind}
use abyss_core.And.State.{WorldState, ws_dc_jt, ws_dc_jni, ws_mem, Slot}

-- A monitor refuses an action by `none`.
abbrev pub Monitor : Type 0 → Type 0
Monitor Q = Q → Action → Option Q

abbrev pub and_then : {Q R : Type 0} → Option Q → (Q → Option R) → Option R
and_then none f = none
and_then (some q) f = f q

module _ {Q : Type 0} (step : Monitor Q) where
  abbrev pub replay : Q → List Action → Option Q
  replay q [] = some q
  replay q (a ∷ acts) = and_then (step q a) (λ r. replay r acts)

  pub replay-append :
      (q : Q) (xs ys : List Action)
      → replay q (xs ++ ys) ≡ and_then (replay q xs) (λ r. replay r ys)
  replay-append q [] ys = refl
  replay-append q (a ∷ xs) ys = elim (Option-cases (step q a)) [
    | inl e ↦ rw e
    | inr (r, e) ↦ rw e (replay-append r xs ys)
  ]

-- The message type that each `TrySend` writes first (net_service/abyss_peer.go).
abbrev pub kind_of : Message → Kind
kind_of (Message.jn a b c) = Kind.jn_t
kind_of (Message.jok a b c d e) = Kind.jok_t
kind_of (Message.jdn a b c) = Kind.jdn_t
kind_of (Message.jni a b c) = Kind.jni_t
kind_of (Message.mem a b c) = Kind.mem_t
kind_of (Message.sjn a b c) = Kind.sjn_t
kind_of (Message.crr a b c) = Kind.crr_t
kind_of (Message.rst a b c) = Kind.rst_t
kind_of (Message.soa a b c) = Kind.soa_t
kind_of (Message.sod a b c) = Kind.sod_t

abbrev pub kind_code : Kind → ℕ
kind_code Kind.jn_t = 0
kind_code Kind.jok_t = 1
kind_code Kind.jdn_t = 2
kind_code Kind.jni_t = 3
kind_code Kind.mem_t = 4
kind_code Kind.sjn_t = 5
kind_code Kind.crr_t = 6
kind_code Kind.rst_t = 7
kind_code Kind.soa_t = 8
kind_code Kind.sod_t = 9

-- Counting: a TX counter goes up just before the message that it counts, and at no other time, and
-- a branch counter is one of the 85 (of a world) or 36 (of the API) that and/and_diag.go has.
-- The state is the code of the type that was counted and is not yet sent.
abbrev pub count_step : Monitor (Option ℕ)
count_step none (tx k) = some (some (kind_code k))
count_step none (sent p m) = none
count_step none (w_branch i) = if ltb i 85 then some none else none
count_step none (b_branch i) = if ltb i 36 then some none else none
count_step none _ = some none
count_step (some c) (sent p m) = if kind_code (kind_of m) == c then some none else none
count_step (some c) _ = none

-- Membership of one peer as the application sees it: the session that was announced as ready and
-- is not closed. A peer is not announced twice, and only the announced session is closed.
abbrev pub member_step : Monitor (Option Uuid)
member_step none (raised (session_ready l s)) = some (some s.peer_session_id)
member_step (some c) (raised (session_ready l s)) = none
member_step none (raised (session_close l s)) = none
member_step (some c) (raised (session_close l s)) =
    if s.peer_session_id == c then some none else none
member_step v _ = some v

-- The hash that an event of membership names.
abbrev pub hash_of : Option Peer → Option String
hash_of = Option.map (λ p. p.id_hash)

abbrev pub IsAbout : String → Action → Type 0
IsAbout k (raised (session_ready l s)) = hash_of s.peer ≡ some k
IsAbout k (raised (session_close l s)) = hash_of s.peer ≡ some k
IsAbout k _ = Unit {0}

abbrev pub All : (Action → Type 0) → List Action → Type 0
All P [] = Unit {0}
All P (a ∷ acts) = P a × All P acts

-- The session of a member.
abbrev pub session_if : WorldState → Uuid → Option Uuid
session_if ws_mem sid = some sid
session_if _ sid = none

abbrev pub member_of : Slot → Option Uuid
member_of none = none
member_of (some i) = session_if i.state i.peer_session_id

-- A disconnected entry has no peer, any other has the peer whose hash is its key.
abbrev pub expected : WorldState → String → Option String
expected ws_dc_jt k = none
expected ws_dc_jni k = none
expected _ k = some k

abbrev pub IsPlaced : String → Slot → Type 0
IsPlaced k none = Unit {0}
IsPlaced k (some i) = hash_of i.peer ≡ expected i.state k

pub All-append :
    (P : Action → Type 0) (xs ys : List Action) → All P xs → All P ys → All P (xs ++ ys)
All-append P [] ys p q = q
All-append P (x ∷ xs) ys p q = (p.0, All-append P xs ys p.1 q)
