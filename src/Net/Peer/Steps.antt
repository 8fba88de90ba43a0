-- ===== src/Net/Peer/Steps.antt =====
-- What a peer goes through: ends of handshakes, of its listener and of messages, in any order.
use abyss_core.Prelude.{
  ℕ, suc, ◌+◌, ◌≤◌, String, List, [], ◌∷◌, ◌++◌, Option, none, some, ◌≡◌, refl, arith, subst, sym,
}
use abyss_core.Interfaces.{UdpAddr}
use abyss_core.Net.Peer.{
  PncState, pncs_disconnected, pncs_inbound, pncs_outbound, pncs_connected, pncs_closed, NetError,
  AbyssPeer, new_abyss_peer, NetAction, announced, listening, closed_conn, fail, inbound_at,
  finish_inbound, outbound_at, finish_outbound, listen_end, try_send, send_at, send_encoded,
}

-- The sections under the peer's lock: the ends of PrepareAbyssInbound and PrepareAbyssOutbound, the
-- end of listenAhmp and a message.
pub data PeerCall : Type 0 where
  inbound_done : Option NetError → ℕ → ℕ → PeerCall
  outbound_done : Option NetError → ℕ → ℕ → List UdpAddr → PeerCall
  listen_done : PeerCall
  sent_with : Option String → PeerCall

unfoldable pub peer_call : PeerCall → AbyssPeer → AbyssPeer × List NetAction
unfolding finish_inbound finish_outbound listen_end try_send
peer_call (inbound_done err conn decoder) p = finish_inbound err conn decoder p
peer_call (outbound_done err conn encoder addresses) p =
    finish_outbound err conn encoder addresses p
peer_call listen_done p = (listen_end p, [])
peer_call (sent_with encoded) p = ((try_send encoded p).0, [])

unfoldable pub peer_calls : List PeerCall → AbyssPeer → AbyssPeer × List NetAction
peer_calls [] p = (p, [])
peer_calls (c ∷ cs) p =
    let rest = peer_calls cs (peer_call c p).0 in (rest.0, (peer_call c p).1 ++ rest.1)

abbrev pub announcements : List NetAction → ℕ
announcements [] = 0
announcements (announced ∷ acts) = suc (announcements acts)
announcements (listening ∷ acts) = announcements acts
announcements (closed_conn conn code ∷ acts) = announcements acts

abbrev pub listeners : List NetAction → ℕ
listeners [] = 0
listeners (listening ∷ acts) = suc (listeners acts)
listeners (announced ∷ acts) = listeners acts
listeners (closed_conn conn code ∷ acts) = listeners acts

abbrev pub IsHeld : Option ℕ → Type 0
IsHeld none = ⊥
IsHeld (some x) = Unit {0}

-- How often the peer was announced and its listener started so far, by its state.
abbrev pub Fits : PncState → AbyssPeer → ℕ → ℕ → Type 0
Fits pncs_disconnected p n l = (n ≡ 0) × (l ≡ 0)
Fits pncs_inbound p n l = (n ≡ 0) × (l ≡ 1) × IsHeld p.inbound_conn × IsHeld p.ahmp_decoder
Fits pncs_outbound p n l = (n ≡ 0) × (l ≡ 0) × IsHeld p.outbound_conn × IsHeld p.ahmp_encoder
Fits pncs_connected p n l =
    (n ≡ 1)
    × (l ≡ 1)
    × IsHeld p.inbound_conn
    × IsHeld p.ahmp_decoder
    × IsHeld p.outbound_conn
    × IsHeld p.ahmp_encoder
Fits pncs_closed p n l = (n ≤ 1) × (l ≤ 1)

abbrev pub IsFit : AbyssPeer → ℕ → ℕ → Type 0
IsFit p n l = Fits p.state p n l

bounded : (s : PncState) (p : AbyssPeer) (n l : ℕ) → Fits s p n l → (n ≤ 1) × (l ≤ 1)
bounded pncs_disconnected p n l h = ground arith
bounded pncs_inbound p n l h = ground arith
bounded pncs_outbound p n l h = ground arith
bounded pncs_connected p n l h = ground arith
bounded pncs_closed p n l h = h

no_more : (n : ℕ) → n + 0 ≡ n
no_more n = omega arith

same-IsFit :
    (p : AbyssPeer) (n l : ℕ) (s : PncState) → p.state ≡ s → Fits s p n l → IsFit p (n + 0) (l + 0)
same-IsFit p n l s e h = rw (no_more n) (rw (no_more l) (subst (λ t. Fits t p n l) (sym e) h))

inbound_at-Fits :
    (s : PncState) (conn decoder : ℕ) (p : AbyssPeer) (n l : ℕ)
    → p.state ≡ s
    → Fits s p n l
    → IsFit
        (inbound_at s conn decoder p).0
        (n + announcements (inbound_at s conn decoder p).1)
        (l + listeners (inbound_at s conn decoder p).1)
unfolding inbound_at
inbound_at-Fits pncs_disconnected conn decoder p n l e h = ground arith
inbound_at-Fits pncs_inbound conn decoder p n l e h = same-IsFit p n l pncs_inbound e h
inbound_at-Fits pncs_outbound conn decoder p n l e h = ground arith
inbound_at-Fits pncs_connected conn decoder p n l e h = same-IsFit p n l pncs_connected e h
inbound_at-Fits pncs_closed conn decoder p n l e h = same-IsFit p n l pncs_closed e h

outbound_at-Fits :
    (s : PncState) (conn encoder : ℕ) (addresses : List UdpAddr) (p : AbyssPeer) (n l : ℕ)
    → p.state ≡ s
    → Fits s p n l
    → IsFit
        (outbound_at s conn encoder addresses p).0
        (n + announcements (outbound_at s conn encoder addresses p).1)
        (l + listeners (outbound_at s conn encoder addresses p).1)
unfolding outbound_at
outbound_at-Fits pncs_disconnected conn encoder addresses p n l e h = ground arith
outbound_at-Fits pncs_inbound conn encoder addresses p n l e h = ground arith
outbound_at-Fits pncs_outbound conn encoder addresses p n l e h = same-IsFit p n l pncs_outbound e h
outbound_at-Fits pncs_connected conn encoder addresses p n l e h =
    same-IsFit p n l pncs_connected e h
outbound_at-Fits pncs_closed conn encoder addresses p n l e h = same-IsFit p n l pncs_closed e h

send_at-Fits :
    (s : PncState) (encoded : Option String) (p : AbyssPeer) (n l : ℕ)
    → p.state ≡ s
    → Fits s p n l
    → IsFit (send_at s encoded p).0 (n + 0) (l + 0)
unfolding send_at send_encoded
send_at-Fits pncs_disconnected encoded p n l e h = same-IsFit p n l pncs_disconnected e h
send_at-Fits pncs_inbound encoded p n l e h = same-IsFit p n l pncs_inbound e h
send_at-Fits pncs_outbound encoded p n l e h = same-IsFit p n l pncs_outbound e h
send_at-Fits pncs_connected none p n l e h = same-IsFit p n l pncs_connected e h
send_at-Fits pncs_connected (some err) p n l e h = ground arith
send_at-Fits pncs_closed encoded p n l e h = same-IsFit p n l pncs_closed e h

closed_fit : (p : AbyssPeer) (n l : ℕ) → IsFit p n l → (n + 0 ≤ 1) × (l + 0 ≤ 1)
closed_fit p n l h = let (a, b) = bounded p.state p n l h in (rw (no_more n) a, rw (no_more l) b)

peer_call-Fits :
    (c : PeerCall) (p : AbyssPeer) (n l : ℕ)
    → IsFit p n l
    → IsFit
        (peer_call c p).0
        (n + announcements (peer_call c p).1)
        (l + listeners (peer_call c p).1)
unfolding peer_call finish_inbound finish_outbound fail listen_end try_send
peer_call-Fits (inbound_done none conn decoder) p n l h =
    inbound_at-Fits p.state conn decoder p n l refl h
peer_call-Fits (inbound_done (some err) conn decoder) p n l h = closed_fit p n l h
peer_call-Fits (outbound_done none conn encoder addresses) p n l h =
    outbound_at-Fits p.state conn encoder addresses p n l refl h
peer_call-Fits (outbound_done (some err) conn encoder addresses) p n l h = closed_fit p n l h
peer_call-Fits listen_done p n l h = closed_fit p n l h
peer_call-Fits (sent_with encoded) p n l h = send_at-Fits p.state encoded p n l refl h

pub announcements-append :
    (xs ys : List NetAction) → announcements (xs ++ ys) ≡ announcements xs + announcements ys
announcements-append [] ys = omega arith
announcements-append (announced ∷ xs) ys = rw (announcements-append xs ys) (omega arith)
announcements-append (listening ∷ xs) ys = announcements-append xs ys
announcements-append (closed_conn conn code ∷ xs) ys = announcements-append xs ys

pub listeners-append : (xs ys : List NetAction) → listeners (xs ++ ys) ≡ listeners xs + listeners ys
listeners-append [] ys = omega arith
listeners-append (listening ∷ xs) ys = rw (listeners-append xs ys) (omega arith)
listeners-append (announced ∷ xs) ys = listeners-append xs ys
listeners-append (closed_conn conn code ∷ xs) ys = listeners-append xs ys

split_sum : (n a b : ℕ) → n + (a + b) ≡ n + a + b
split_sum n a b = omega arith

calls-Fits :
    (cs : List PeerCall) (p : AbyssPeer) (n l : ℕ)
    → IsFit p n l
    → IsFit
        (peer_calls cs p).0
        (n + announcements (peer_calls cs p).1)
        (l + listeners (peer_calls cs p).1)
unfolding peer_calls
calls-Fits [] p n l h = same-IsFit p n l p.state refl h
calls-Fits (c ∷ cs) p n l h =
    rw (announcements-append (peer_call c p).1 (peer_calls cs (peer_call c p).0).1) (
      rw (listeners-append (peer_call c p).1 (peer_calls cs (peer_call c p).0).1) (
        rw (split_sum n)
          (rw (split_sum l) (calls-Fits cs (peer_call c p).0 _ _ (peer_call-Fits c p n l h)))))

from_zero : (n : ℕ) → 0 + n ≡ n
from_zero n = omega arith

IsFit-from : (p : AbyssPeer) (n l : ℕ) → IsFit p (0 + n) (0 + l) → IsFit p n l
IsFit-from p n l h =
    subst (λ i. IsFit p i l) (from_zero n) (subst (λ i. IsFit p (0 + n) i) (from_zero l) h)

-- From a new peer on, after any ends of handshakes, listeners and messages in any order, the peer was
-- announced to the host at most once and its listener started at most once. If it is
-- connected, it was announced and its listener started, and it has both connections, the encoder and
-- the decoder. In PNCS_DISCONNECTED, PNCS_INBOUND and PNCS_OUTBOUND it was not announced, and its
-- listener was started in PNCS_INBOUND only.
pub peer_calls-Fits :
    (identity : String) (cs : List PeerCall)
    → (announcements (peer_calls cs (new_abyss_peer identity)).1 ≤ 1)
      × (listeners (peer_calls cs (new_abyss_peer identity)).1 ≤ 1)
      × IsFit
          (peer_calls cs (new_abyss_peer identity)).0
          (announcements (peer_calls cs (new_abyss_peer identity)).1)
          (listeners (peer_calls cs (new_abyss_peer identity)).1)
unfolding new_abyss_peer
peer_calls-Fits identity cs =
    let h =
      IsFit-from (peer_calls cs (new_abyss_peer identity)).0 _ _
        (calls-Fits cs (new_abyss_peer identity) 0 0 (refl, refl)) in
    let (a, b) = bounded _ (peer_calls cs (new_abyss_peer identity)).0 _ _ h in (a, b, h)
