-- ===== src/Net/Contexts.antt =====
-- The contexted peers of net_service/peer_context.go. The map never loses a peer, so the pointer to
-- one stands for its id. A waiter's channel has a number. Every method holds the lock, but for the
-- wait of Wait itself.
pub mod Waiting
use abyss_core.Prelude.{
  ℕ, zero, suc, ◌+◌, ◌-◌, ◌*◌, String, string_eq, Bool, true, false, not, ◌&&◌, ◌||◌, List, [], ◌∷◌,
  ◌++◌, Option, none, some, Mapping, put, ltb, ◌==◌, nat_eq, if◌then◌else◌,
}
use abyss_core.Interfaces.{Time}

pub record Activity : Type 0 where
  pub active_cnt : ℕ
  pub last_activity : Time

-- `cancelled` says whether the context's Err is not nil; `object` is the AbyssPeer.
pub record ContextedPeer : Type 0 where
  pub cancelled : Bool
  pub activity : Activity
  pub object : ℕ

-- Activate, Renew and Deactivate, whose loop ends with the swap that succeeds.
unfoldable pub activate : Time → ContextedPeer → ContextedPeer
activate now c = record c {
  activity = record { active_cnt = suc c.activity.active_cnt; last_activity = now };
}

unfoldable pub renew : Time → ContextedPeer → ContextedPeer
renew now c = record c {
  activity = record { active_cnt = c.activity.active_cnt; last_activity = now };
}

unfoldable pub deactivate_from : ℕ → Time → ContextedPeer → Option ContextedPeer
deactivate_from zero now c = none
deactivate_from (suc n) now c =
    some (record c { activity = record { active_cnt = n; last_activity = now } })

-- `none` is the panic.
unfoldable pub deactivate : Time → ContextedPeer → Option ContextedPeer
unfolding deactivate_from
deactivate now c = deactivate_from c.activity.active_cnt now c

-- Five minutes and three hours, in nanoseconds.
abbrev pub inactive_timeout : ℕ
inactive_timeout = 5 * 60 * 1000000000

abbrev pub active_timeout : ℕ
active_timeout = 180 * 60 * 1000000000

pub record ContextedPeerMap : Type 0 where
  pub peers : Mapping String ContextedPeer
  pub waiters : Mapping String (List ℕ)

unfoldable pub new_contexted_peer_map : ContextedPeerMap
new_contexted_peer_map = record { peers = λ k. none; waiters = λ k. none }

-- What the cleaner makes of one peer.
unfoldable pub is_expired : Time → Activity → Bool
is_expired now a =
    ltb active_timeout (now - a.last_activity)
    || ((a.active_cnt == 0) && ltb inactive_timeout (now - a.last_activity))

unfoldable pub clean_peer : Time → Option ContextedPeer → Option ContextedPeer
unfolding is_expired
clean_peer now none = none
clean_peer now (some c) = some (record c { cancelled = c.cancelled || is_expired now c.activity })

unfoldable pub live_waiters : (ℕ → Bool) → List ℕ → List ℕ
live_waiters live [] = []
live_waiters live (w ∷ ws) = let rest = live_waiters live ws in if live w then w ∷ rest else rest

-- A group without live waiters is deleted.
unfoldable pub kept : List ℕ → Option (List ℕ)
kept [] = none
kept (w ∷ ws) = some (w ∷ ws)

unfoldable pub clean_waiters : (ℕ → Bool) → Option (List ℕ) → Option (List ℕ)
unfolding live_waiters kept
clean_waiters live none = none
clean_waiters live (some ws) = kept (live_waiters live ws)

-- One round of Cleaner. The ranges do to each key what does not depend on the others.
unfoldable pub clean_map : Time → (ℕ → Bool) → ContextedPeerMap → ContextedPeerMap
unfolding clean_peer clean_waiters
clean_map now live m = record {
  peers = λ k. clean_peer now (m.peers k);
  waiters = λ k. clean_waiters live (m.waiters k);
}

unfoldable pub fresh_peer : ℕ → Time → ContextedPeer
fresh_peer object now = record {
  cancelled = false;
  activity = record { active_cnt = 0; last_activity = now };
  object = object;
}

unfoldable pub waiting : Option (List ℕ) → List ℕ
waiting none = []
waiting (some ws) = ws

unfoldable pub append_at :
    Option ContextedPeer → Time → String → ℕ → ContextedPeerMap → ContextedPeerMap × List ℕ × Bool
unfolding fresh_peer waiting
append_at (some old) now id object m = (m, [], false)
append_at none now id object m = (
  record { peers = put id (some (fresh_peer object now)) m.peers; waiters = put id none m.waiters },
  waiting (m.waiters id),
  true,
)

-- The map, the waiters whose channel gets the new peer, and whether it is new.
unfoldable pub append : Time → String → ℕ → ContextedPeerMap → ContextedPeerMap × List ℕ × Bool
unfolding append_at
append now id object m = append_at (m.peers id) now id object m

unfoldable pub find_at :
    Option ContextedPeer
    → Time
    → String
    → ContextedPeerMap
    → ContextedPeerMap × Option ContextedPeer
unfolding renew
find_at none now id m = (m, none)
find_at (some c) now id m =
    (record m { peers = put id (some (renew now c)) m.peers }, some (renew now c))

unfoldable pub find : Time → String → ContextedPeerMap → ContextedPeerMap × Option ContextedPeer
unfolding find_at
find now id m = find_at (m.peers id) now id m

unfoldable pub wait_at :
    Option ContextedPeer → ℕ → String → ContextedPeerMap → ContextedPeerMap × Bool
unfolding waiting
wait_at (some c) waiter id m = (m, true)
wait_at none waiter id m = (
  record m { waiters = put id (some (waiting (m.waiters id) ++ (waiter ∷ []))) m.waiters },
  false,
)

-- Wait, up to the wait: whether the peer is there at once. The waiter's channel then gets it from
-- `append`.
unfoldable pub wait : ℕ → String → ContextedPeerMap → ContextedPeerMap × Bool
unfolding wait_at
wait waiter id m = wait_at (m.peers id) waiter id m
