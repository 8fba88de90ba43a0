-- ===== src/Net/Contexts/Waiting.antt =====
-- The waiters of the peer map (net_service/peer_context.go), from Wait to Append.
use abyss_core.Prelude.{
  ℕ, String, string_eq, Bool, true, false, List, [], ◌∷◌, ◌++◌, Option, none, some, Bool-cases, inl,
  inr, put, put_self, put-ne, key_cases, ◌≡◌, ◌≢◌, ◌⊎◌, refl, ◌∙◌, subst, sym, ap,
}
use abyss_core.Interfaces.{Time}
use abyss_core.Net.Contexts.{
  ContextedPeerMap, ContextedPeer, append, append_at, find, find_at, wait, wait_at, waiting,
  clean_map, clean_peer, clean_waiters, live_waiters, kept, fresh_peer,
}

pub data MapCall : Type 0 where
  appended : Time → String → ℕ → MapCall
  found : Time → String → MapCall
  waited : ℕ → String → MapCall
  cleaned : Time → (ℕ → Bool) → MapCall

unfoldable pub map_call : MapCall → ContextedPeerMap → ContextedPeerMap
unfolding append find wait clean_map
map_call (appended now id object) m = (append now id object m).0
map_call (found now id) m = (find now id m).0
map_call (waited waiter id) m = (wait waiter id m).0
map_call (cleaned now live) m = clean_map now live m

unfoldable pub map_calls : List MapCall → ContextedPeerMap → ContextedPeerMap
unfolding map_call
map_calls [] m = m
map_calls (c ∷ cs) m = map_calls cs (map_call c m)

-- The calls do not append the peer, and the waiter's context is live at each round of the cleaner.
abbrev pub Leaves : ℕ → String → MapCall → Type 0
Leaves waiter id (appended now other object) = other ≢ id
Leaves waiter id (cleaned now live) = live waiter ≡ true
Leaves waiter id (found now other) = Unit {0}
Leaves waiter id (waited other_waiter other) = Unit {0}

abbrev pub AllLeave : ℕ → String → List MapCall → Type 0
AllLeave waiter id [] = Unit {0}
AllLeave waiter id (c ∷ cs) = Leaves waiter id c × AllLeave waiter id cs

abbrev pub IsIn : ℕ → List ℕ → Type 0
IsIn w [] = ⊥
IsIn w (x ∷ xs) = (x ≡ w) ⊎ IsIn w xs

IsIn-last : (w : ℕ) (xs : List ℕ) → IsIn w (xs ++ (w ∷ []))
IsIn-last w [] = inl refl
IsIn-last w (x ∷ xs) = inr (IsIn-last w xs)

IsIn-more : (w v : ℕ) (xs : List ℕ) → IsIn w xs → IsIn w (xs ++ (v ∷ []))
IsIn-more w v [] h = absurd h
IsIn-more w v (x ∷ xs) (inl e) = inl e
IsIn-more w v (x ∷ xs) (inr h) = inr (IsIn-more w v xs h)

IsIn-live :
    (live : ℕ → Bool) (w : ℕ) (xs : List ℕ)
    → live w ≡ true
    → IsIn w xs
    → IsIn w (live_waiters live xs)
unfolding live_waiters
IsIn-live live w [] l h = absurd h
IsIn-live live w (x ∷ xs) l (inl e) = rw (ap live e ∙ l) (inl e)
IsIn-live live w (x ∷ xs) l (inr h) = elim (Bool-cases (live x)) [
  | inl q ↦ rw q (inr (IsIn-live live w xs l h))
  | inr q ↦ rw q (IsIn-live live w xs l h)
]

-- The waiter stands in a group, and the peer is not there.
abbrev pub HasWaiter : ℕ → Option (List ℕ) → Type 0
HasWaiter w none = ⊥
HasWaiter w (some ws) = IsIn w ws

pub record IsPending (w : ℕ) (id : String) (m : ContextedPeerMap) : Type 0 where
  pub absent : m.peers id ≡ none
  pub listed : HasWaiter w (m.waiters id)

kept-HasWaiter : (w : ℕ) (xs : List ℕ) → IsIn w xs → HasWaiter w (kept xs)
unfolding kept
kept-HasWaiter w [] h = absurd h
kept-HasWaiter w (x ∷ xs) h = h

clean-HasWaiter :
    (live : ℕ → Bool) (w : ℕ) (o : Option (List ℕ))
    → live w ≡ true
    → HasWaiter w o
    → HasWaiter w (clean_waiters live o)
unfolding clean_waiters
clean-HasWaiter live w none l h = absurd h
clean-HasWaiter live w (some ws) l h =
    kept-HasWaiter w (live_waiters live ws) (IsIn-live live w ws l h)

waiting-more : (w v : ℕ) (o : Option (List ℕ)) → HasWaiter w o → IsIn w (waiting o ++ (v ∷ []))
unfolding waiting
waiting-more w v none h = absurd h
waiting-more w v (some ws) h = IsIn-more w v ws h

module _ (w : ℕ) (id : String) (m : ContextedPeerMap) (h : IsPending w id m) where
  append-IsPending :
      (now : Time) (other : String) (object : ℕ) (o : Option ContextedPeer)
      → other ≢ id
      → IsPending w id (append_at o now other object m).0
  unfolding append_at
  append-IsPending now other object (some c) n = h
  append-IsPending now other object none n = record {
    absent = put-ne other id _ m.peers n ∙ h.absent;
    listed = rw (put-ne other id none m.waiters n) (h.listed);
  }

  find-IsPending :
      (now : Time) (other : String) (o : Option ContextedPeer)
      → m.peers other ≡ o
      → IsPending w id (find_at o now other m).0
  unfolding find_at
  find-IsPending now other none e = h
  find-IsPending now other (some c) e = record {
    absent = put-ne other id _ m.peers apart ∙ h.absent;
    listed = h.listed;
  }
    where
      apart : other ≢ id
      apart same = cc (ap m.peers same, h.absent)

  wait-IsPending :
      (waiter : ℕ) (other : String) (o : Option ContextedPeer)
      → IsPending w id (wait_at o waiter other m).0
  unfolding wait_at
  wait-IsPending waiter other (some c) = h
  wait-IsPending waiter other none = record {
    absent = h.absent;
    listed = listed_still (key_cases other id);
  }
    where
      listed_still :
          (other ≡ id) ⊎ (other ≢ id)
          → HasWaiter w (put other (some (waiting (m.waiters other) ++ (waiter ∷ []))) m.waiters id)
      listed_still (inr n) =
          rw (put-ne other id (some (waiting (m.waiters other) ++ (waiter ∷ []))) m.waiters n)
            (h.listed)
      listed_still (inl e) =
          subst
            (λ i. HasWaiter w (put i (some (waiting (m.waiters i) ++ (waiter ∷ []))) m.waiters id))
            (sym e)
            (rw (put_self id (some (waiting (m.waiters id) ++ (waiter ∷ []))) m.waiters)
              (waiting-more w waiter (m.waiters id) h.listed))

call-IsPending :
    (w : ℕ) (id : String) (c : MapCall) (m : ContextedPeerMap)
    → Leaves w id c
    → IsPending w id m
    → IsPending w id (map_call c m)
unfolding map_call append find wait clean_map clean_peer
call-IsPending w id (appended now other object) m n h =
    append-IsPending w id m h now other object (m.peers other) n
call-IsPending w id (found now other) m n h = find-IsPending w id m h now other (m.peers other) refl
call-IsPending w id (waited waiter other) m n h =
    wait-IsPending w id m h waiter other (m.peers other)
call-IsPending w id (cleaned now live) m l h = record {
  absent = rw (h.absent) refl;
  listed = clean-HasWaiter live w (m.waiters id) l h.listed;
}

calls-IsPending :
    (w : ℕ) (id : String) (cs : List MapCall) (m : ContextedPeerMap)
    → AllLeave w id cs
    → IsPending w id m
    → IsPending w id (map_calls cs m)
unfolding map_calls
calls-IsPending w id [] m l h = h
calls-IsPending w id (c ∷ cs) m l h =
    calls-IsPending w id cs (map_call c m) l.1 (call-IsPending w id c m l.0 h)

wait-begins :
    (w : ℕ) (id : String) (m : ContextedPeerMap)
    → m.peers id ≡ none
    → ((wait w id m).1 ≡ false) × IsPending w id (wait w id m).0
unfolding wait wait_at
wait-begins w id m e = rw e (
  refl,
  record {
    absent = e;
    listed =
        rw (put_self id (some (waiting (m.waiters id) ++ (w ∷ []))) m.waiters)
          (IsIn-last w (waiting (m.waiters id)));
  },
)

served :
    (w : ℕ) (id : String) (m : ContextedPeerMap) (now : Time) (object : ℕ)
    → IsPending w id m
    → ((append now id object m).2 ≡ true)
      × IsIn w (append now id object m).1
      × ((append now id object m).0.peers id ≡ some (fresh_peer object now))
unfolding append append_at
served w id m now object h =
    rw (h.absent) (refl, in_group (m.waiters id) h.listed, put_self id _ m.peers)
  where
    in_group : (o : Option (List ℕ)) → HasWaiter w o → IsIn w (waiting o)
    in_group none h = absurd h
    in_group (some ws) h = h

-- A Wait for a peer that is not in the map has to wait, and after any other calls, of Append for other
-- peers, of Find, Wait and rounds of the cleaner while the waiter's context lives, the Append of
-- the peer succeeds, hands the peer to this waiter and has it in the map.
pub wait-served :
    (w : ℕ) (id : String) (m : ContextedPeerMap) (cs : List MapCall) (now : Time) (object : ℕ)
    → m.peers id ≡ none
    → AllLeave w id cs
    → ((wait w id m).1 ≡ false)
      × ((append now id object (map_calls cs (wait w id m).0)).2 ≡ true)
      × IsIn w (append now id object (map_calls cs (wait w id m).0)).1
      × ((append now id object (map_calls cs (wait w id m).0)).0.peers id
          ≡ some (fresh_peer object now))
wait-served w id m cs now object e l =
    let (waits, pending) = wait-begins w id m e in
    let (new, handed, there) =
      served w id (map_calls cs (wait w id m).0) now object
        (calls-IsPending w id cs (wait w id m).0 l pending) in
    (waits, new, handed, there)
