-- ===== src/Host/Opened.antt =====
-- What the host does on each event of a world that it opened (host/host.go).
use abyss_core.Prelude.{
  ℕ, suc, ◌+◌, String, string_eq, Bool, true, false, Bool-cases, inl, inr, Option, none, some, ◌≡◌,
  refl, ◌∙◌, arith, ◌==◌, nat_eq, if◌then◌else◌,
}
use text.Mathlib.TextEquality.{eq_iff}
use abyss_core.Interfaces.{Uuid, Peer, NeighborEvent, AndPeerSession}
use abyss_core.Interfaces.NeighborEvent.{
  session_request, session_ready, session_close, join_success, join_fail, world_leave,
  connect_request, timer_request, peer_register, object_append, object_delete,
}
use abyss_core.And.Effect.{raised}
use abyss_core.And.Monitor.{member_step}
use abyss_core.And.Run.{member_at}
use abyss_core.And.Calm.{IsTame, HasPeer}
use abyss_core.Host.{
  World, AbyssHost, Handled, handled, panicked, blocked, handle_event, set_active, at_world,
}

-- How many of the sessions of one world count for a peer.
abbrev pub count_of : Option Uuid → ℕ
count_of none = 0
count_of (some sid) = 1

-- The host has the world, and counts each peer once more than at the start if it is a member.
pub record IsFollowing (lsid : Uuid) (base : String → ℕ) (m : String → Option Uuid) (h : AbyssHost)
    : Type 0 where
  pub world : World
  pub there : h.worlds lsid ≡ some (some world)
  pub counted : (k : String) → h.active_cnt k ≡ base k + count_of (m k)

abbrev pub Follows : Uuid → (String → ℕ) → (String → Option Uuid) → Handled → Type 0
Follows lsid base m panicked = ⊥
Follows lsid base m blocked = ⊥
Follows lsid base m (handled h acts) = IsFollowing lsid base m h

-- What a peer's readiness or closing does to the count of its membership.
ready_counts :
    (l : Uuid) (s : AndPeerSession) (b : Bool) (v u : Option Uuid) (n r : ℕ)
    → (if b then member_step v (raised (session_ready l s)) else some v) ≡ some u
    → n ≡ r + count_of v
    → (if b then suc n else n) ≡ r + count_of u
ready_counts l s true none u n r e c = ground arith
ready_counts l s true (some sid) u n r e c = ground arith
ready_counts l s false v u n r e c = ground arith

close_counts :
    (l : Uuid) (s : AndPeerSession) (v u : Option Uuid) (n r : ℕ)
    → member_step v (raised (session_close l s)) ≡ some u
    → n ≡ r + count_of v
    → n ≡ suc (r + count_of u)
close_counts l s none u n r e c = ground arith
close_counts l s (some sid) u n r e c = ground arith

set_active_self : (k : String) (n : ℕ) (f : String → ℕ) → set_active k n f k ≡ n
set_active_self k n f = rw ((eq_iff k k).1 refl)

set_active_cases :
    (P : ℕ → Type 0) (k j : String) (n : ℕ) (f : String → ℕ)
    → ((k == j) ≡ true → k ≡ j → P n)
    → ((k == j) ≡ false → P (f j))
    → P (set_active k n f j)
set_active_cases P k j n f same other = elim (Bool-cases (k == j)) [
  | inl e ↦ rw e (same e ((eq_iff k j).0 e))
  | inr e ↦ rw e (other e)
]

-- What a peer's event means for the membership of a hash.
ready_at :
    (l : Uuid) (s : AndPeerSession) (p : Peer) (k : String) (v : Option Uuid) (b : Bool)
    → s.peer ≡ some p
    → (p.id_hash == k) ≡ b
    → (if b then member_step v (raised (session_ready l s)) else some v)
      ≡ member_at k v (raised (session_ready l s))
ready_at l s p k v b e same = rw e (rw same refl)

close_at :
    (l : Uuid) (s : AndPeerSession) (p : Peer) (k : String) (v : Option Uuid) (b : Bool)
    → s.peer ≡ some p
    → (p.id_hash == k) ≡ b
    → (if b then member_step v (raised (session_close l s)) else some v)
      ≡ member_at k v (raised (session_close l s))
close_at l s p k v b e same = rw e (rw same refl)

module _ (lsid : Uuid) (base : String → ℕ) (m m' : String → Option Uuid) where
  same_counts :
      {n : ℕ} (k : String)
      → n ≡ base k + count_of (m k)
      → some (m k) ≡ some (m' k)
      → n ≡ base k + count_of (m' k)
  same_counts k c e = cc

  pub same-IsFollowing :
      (h : AbyssHost)
      → ((k : String) → some (m k) ≡ some (m' k))
      → IsFollowing lsid base m h
      → IsFollowing lsid base m' h
  same-IsFollowing h t f = record {
    world = f.world;
    there = f.there;
    counted = λ k. same_counts k (f.counted k) (t k);
  }

  at_world-Follows :
      (l : Uuid) (q : Option Peer) (g : World → Peer → Handled) (h : AbyssHost)
      → ((w : World) (p : Peer) → Follows lsid base m' (g w p))
      → HasPeer q
      → l ≡ lsid
      → IsFollowing lsid base m h
      → Follows lsid base m' (at_world (h.worlds l) q g)
  unfolding at_world
  at_world-Follows l none g h c has e f = absurd has
  at_world-Follows l (some p) g h c has e f = rw e (rw (f.there) (c f.world p))

  ready_count :
      (l : Uuid) (s : AndPeerSession) (p : Peer) (h : AbyssHost) (k : String)
      → s.peer ≡ some p
      → member_at k (m k) (raised (session_ready l s)) ≡ some (m' k)
      → IsFollowing lsid base m h
      → set_active p.id_hash (suc (h.active_cnt p.id_hash)) h.active_cnt k
        ≡ base k + count_of (m' k)
  ready_count l s p h k e t f =
      set_active_cases (λ n. n ≡ base k + count_of (m' k)) p.id_hash k _ h.active_cnt
        (λ b same.
          ready_counts l s true (m k) (m' k) _ (base k) (ready_at l s p k (m k) true e b ∙ t)
            (rw same (f.counted k)))
        (λ b.
          ready_counts l s false (m k) (m' k) _ (base k) (ready_at l s p k (m k) false e b ∙ t)
            (f.counted k))

  ready-Follows :
      (l : Uuid) (s : AndPeerSession) (q : Option Peer) (h : AbyssHost)
      → s.peer ≡ q
      → HasPeer q
      → l ≡ lsid
      → ((k : String) → member_at k (m k) (raised (session_ready l s)) ≡ some (m' k))
      → IsFollowing lsid base m h
      → Follows lsid base m' (handle_event (session_ready l s) h)
  unfolding handle_event
  ready-Follows l s none h e p el t f = absurd p
  ready-Follows l s (some p) h e has el t f = rw el (
      rw (f.there) (
        rw e (record {
          world = f.world;
          there = f.there;
          counted = λ k. ready_count l s p h k e (t k) f;
        })))

  close_count :
      (l : Uuid) (s : AndPeerSession) (p : Peer) (h : AbyssHost) (k : String)
      → s.peer ≡ some p
      → member_at k (m k) (raised (session_close l s)) ≡ some (m' k)
      → p.id_hash ≡ k
      → IsFollowing lsid base m h
      → h.active_cnt k ≡ suc (base k + count_of (m' k))
  close_count l s p h k e t same f =
      close_counts l s (m k) (m' k) _ (base k)
        (close_at l s p k (m k) true e ((eq_iff p.id_hash k).1 same) ∙ t) (f.counted k)

  close-Follows :
      (l : Uuid) (s : AndPeerSession) (q : Option Peer) (h : AbyssHost)
      → s.peer ≡ q
      → HasPeer q
      → l ≡ lsid
      → ((k : String) → member_at k (m k) (raised (session_close l s)) ≡ some (m' k))
      → IsFollowing lsid base m h
      → Follows lsid base m' (handle_event (session_close l s) h)
  unfolding handle_event
  close-Follows l s none h e p el t f = absurd p
  close-Follows l s (some p) h e has el t f = rw el (
      rw (f.there) (
        rw e (
          rw (close_count l s p h p.id_hash e (t p.id_hash) refl f) (record {
            world = f.world;
            there = f.there;
            counted = λ k.
                set_active_cases (λ n. n ≡ base k + count_of (m' k)) p.id_hash k _ h.active_cnt
                  (λ b same. rw same refl)
                  (λ b.
                    ready_counts l s false (m k) (m' k) _ (base k)
                      (close_at l s p k (m k) false e b ∙ t k) (f.counted k));
          }))))

  pub tame-Follows :
      (e : NeighborEvent) (h : AbyssHost)
      → IsTame lsid e
      → ((k : String) → member_at k (m k) (raised e) ≡ some (m' k))
      → IsFollowing lsid base m h
      → Follows lsid base m' (handle_event e h)
  unfolding handle_event
  tame-Follows (session_request l s) h c t f =
      at_world-Follows l s.peer _ h (λ w p. same-IsFollowing h t f) c.1 c.0 f
  tame-Follows (session_ready l s) h c t f = ready-Follows l s s.peer h refl c.1 c.0 t f
  tame-Follows (session_close l s) h c t f = close-Follows l s s.peer h refl c.1 c.0 t f
  tame-Follows (join_success l url) h c t f = absurd c
  tame-Follows (join_fail l message code) h c t f = absurd c
  tame-Follows (world_leave l) h c t f = absurd c
  tame-Follows (connect_request url) h c t f = same-IsFollowing h t f
  tame-Follows (timer_request l n) h c t f = same-IsFollowing h t f
  tame-Follows (peer_register certificates) h c t f = same-IsFollowing h t f
  tame-Follows (object_append l s objects) h c t f =
      at_world-Follows l s.peer _ h (λ w p. same-IsFollowing h t f) c.1 c.0 f
  tame-Follows (object_delete l s ids) h c t f =
      at_world-Follows l s.peer _ h (λ w p. same-IsFollowing h t f) c.1 c.0 f
