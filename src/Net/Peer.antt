-- ===== src/Net/Peer.antt =====
-- net_service/abyss_peer.go, abyss_inbound.go and abyss_outbound.go: the state of a peer and how
-- connections change it. What each call of QUIC, CBOR and x509 returns is an argument; a connection
-- and a stream are numbers.
pub mod Steps
pub mod Handshakes
use abyss_core.Prelude.{ℕ, String, Bool, true, false, List, [], ◌∷◌, ◌++◌, Option, none, some}
use abyss_core.Interfaces.{UdpAddr}
use abyss_core.Net.Addresses.{BetaAddressSelector, filter_address_candidates}
use abyss_core.Functional.{Tried, value, failed}

pub data PncState : Type 0 where
  pncs_disconnected pncs_inbound pncs_outbound pncs_connected pncs_closed : PncState

-- An error as it was returned, or wrapped by aerr.NewConnErr or aerr.NewConnErrM.
pub data NetError : Type 0 where
  plain conn_err conn_err_m : String → NetError

pub record AbyssPeer : Type 0 where
  pub state : PncState
  pub identity : String
  pub addresses : List UdpAddr
  pub inbound_conn : Option ℕ
  pub outbound_conn : Option ℕ
  pub ahmp_encoder : Option ℕ
  pub ahmp_decoder : Option ℕ
  pub err : Option NetError

unfoldable pub new_abyss_peer : String → AbyssPeer
new_abyss_peer identity = record {
  state = pncs_disconnected;
  identity = identity;
  addresses = [];
  inbound_conn = none;
  outbound_conn = none;
  ahmp_encoder = none;
  ahmp_decoder = none;
  err = none;
}

-- A write to `abyssPeerCH`, a start of listenAhmp, and a CloseWithError.
pub data NetAction : Type 0 where
  announced listening : NetAction
  closed_conn : ℕ → ℕ → NetAction

abbrev pub abyss_already_connected : ℕ
abyss_already_connected = 2561

abbrev pub abyss_early_reconnection : ℕ
abyss_early_reconnection = 2562

-- The first error is kept.
abbrev pub first_error : Option NetError → NetError → Option NetError
first_error none e = some e
first_error (some old) e = some old

unfoldable pub fail : NetError → AbyssPeer → AbyssPeer × List NetAction
fail e p = (record p { err = first_error p.err e; state = pncs_closed }, [])

-- What PrepareAbyssInbound does last, by the state of the target.
unfoldable pub inbound_at : PncState → ℕ → ℕ → AbyssPeer → AbyssPeer × List NetAction
inbound_at pncs_disconnected conn decoder p = (
  record p { state = pncs_inbound; inbound_conn = some conn; ahmp_decoder = some decoder },
  listening ∷ [],
)
inbound_at pncs_outbound conn decoder p = (
  record p { state = pncs_connected; inbound_conn = some conn; ahmp_decoder = some decoder },
  listening ∷ announced ∷ [],
)
inbound_at pncs_inbound conn decoder p = (p, closed_conn conn abyss_already_connected ∷ [])
inbound_at pncs_connected conn decoder p = (p, closed_conn conn abyss_already_connected ∷ [])
inbound_at pncs_closed conn decoder p = (p, closed_conn conn abyss_early_reconnection ∷ [])

unfoldable pub finish_inbound : Option NetError → ℕ → ℕ → AbyssPeer → AbyssPeer × List NetAction
unfolding fail inbound_at
finish_inbound (some e) conn decoder p = fail e p
finish_inbound none conn decoder p = inbound_at p.state conn decoder p

-- What PrepareAbyssOutbound does last.
unfoldable pub outbound_at :
    PncState → ℕ → ℕ → List UdpAddr → AbyssPeer → AbyssPeer × List NetAction
outbound_at pncs_disconnected conn encoder addresses p = (
  record p {
    state = pncs_outbound;
    outbound_conn = some conn;
    addresses = p.addresses ++ addresses;
    ahmp_encoder = some encoder;
  },
  [],
)
outbound_at pncs_inbound conn encoder addresses p = (
  record p {
    state = pncs_connected;
    outbound_conn = some conn;
    addresses = p.addresses ++ addresses;
    ahmp_encoder = some encoder;
  },
  announced ∷ [],
)
outbound_at pncs_outbound conn encoder addresses p =
    (p, closed_conn conn abyss_already_connected ∷ [])
outbound_at pncs_connected conn encoder addresses p =
    (p, closed_conn conn abyss_already_connected ∷ [])
outbound_at pncs_closed conn encoder addresses p =
    (p, closed_conn conn abyss_early_reconnection ∷ [])

unfoldable pub finish_outbound :
    Option NetError → ℕ → ℕ → List UdpAddr → AbyssPeer → AbyssPeer × List NetAction
unfolding fail outbound_at
finish_outbound (some e) conn encoder addresses p = fail e p
finish_outbound none conn encoder addresses p = outbound_at p.state conn encoder addresses p

-- The returns of the calls in PrepareAbyssInbound: AcceptStream, Decode, DecryptHandshake, Unmarshal
-- and ParseCertificate (which gives the issuer's common name), Wait, VerifyTLSBinding and Encode. Those of
-- DecryptHandshake and VerifyTLSBinding are `none` for their panics, as in Net.Identity.
pub record InboundCalls : Type 0 where
  pub connection : ℕ
  pub accept_stream : Tried String ℕ
  pub decode : Option String
  pub decrypt : Option (Option String)
  pub unmarshal : Option String
  pub parse_certificate : Tried String String
  pub wait : String → Bool
  pub verify : Option (Option String)
  pub encode : Option String

-- A panic, or the target, found or not, with the error that `err` holds at the return, and the decoder.
pub data InboundEnd : Type 0 where
  panicking : InboundEnd
  no_target : InboundEnd
  reached : Option NetError → ℕ → InboundEnd

unfoldable pub inbound_verified :
    InboundCalls → ℕ → Option (Option String) → Option String → InboundEnd
inbound_verified c stream none encoded = panicking
inbound_verified c stream (some (some err)) encoded = reached (some (conn_err err)) stream
inbound_verified c stream (some none) (some err) = reached (some (conn_err err)) stream
inbound_verified c stream (some none) none = reached none stream

unfoldable pub inbound_named : InboundCalls → ℕ → Tried String String → InboundEnd
unfolding inbound_verified
inbound_named c stream (failed err) = no_target
inbound_named c stream (value peer_hash) = elim (c.wait peer_hash) [
  | false ↦ no_target
  | true ↦ inbound_verified c stream c.verify c.encode
]

-- A call without an error goes on; the target is not known yet.
abbrev pub unless : Option String → InboundEnd → InboundEnd
unless none e = e
unless (some err) e = no_target

abbrev pub unless_panic : Option (Option String) → InboundEnd → InboundEnd
unless_panic none e = panicking
unless_panic (some result) e = unless result e

unfoldable pub inbound_stream : InboundCalls → Tried String ℕ → InboundEnd
unfolding inbound_named
inbound_stream c (failed err) = no_target
inbound_stream c (value stream) =
    unless c.decode
      (unless_panic c.decrypt (unless c.unmarshal (inbound_named c stream c.parse_certificate)))

unfoldable pub inbound_body : InboundCalls → InboundEnd
unfolding inbound_stream
inbound_body c = inbound_stream c c.accept_stream

-- The deferred call at the end: it does nothing without a target. A panic ends the process (`none`).
unfoldable pub inbound_end :
    InboundCalls → InboundEnd → AbyssPeer → Option (AbyssPeer × List NetAction)
unfolding finish_inbound
inbound_end c panicking p = none
inbound_end c no_target p = some (p, [])
inbound_end c (reached err stream) p = some (finish_inbound err c.connection stream p)

unfoldable pub prepare_abyss_inbound :
    InboundCalls → AbyssPeer → Option (AbyssPeer × List NetAction)
unfolding inbound_body inbound_end
prepare_abyss_inbound c p = inbound_end c (inbound_body c) p

-- The returns of the calls in PrepareAbyssOutbound: Dial, OpenStreamSync, MarshalToBuffer,
-- EncryptHandshake, Encode, Decode, ParseCertificate and VerifyTLSBinding, whose panic is `none`.
pub record OutboundCalls : Type 0 where
  pub dial : UdpAddr → Tried String ℕ
  pub open_stream : Tried String ℕ
  pub marshal : Option String
  pub encrypt : Option String
  pub encode : Option String
  pub decode : Option String
  pub parse_certificate : Option String
  pub verify : Option (Option String)

-- How the body ends: with `err`, or in a panic of VerifyTLSBinding.
pub data OutboundEnd : Type 0 where
  died : OutboundEnd
  ended : Option NetError → OutboundEnd

-- VerifyTLSBinding reads the certificate, which is nil after an error of ParseCertificate, and asserts
-- that its key is an Ed25519 key.
-- Its result goes to a variable of its own (`if err := ...`), so both returns leave `err` nil.
unfoldable pub verified_at : Option String → Option (Option String) → OutboundEnd
verified_at (some err) result = died
verified_at none none = died
verified_at none (some none) = ended none
verified_at none (some (some err)) = ended none

-- The result of Decode goes to a variable of its own, too.
unfoldable pub authenticated : OutboundCalls → Option String → OutboundEnd
unfolding verified_at
authenticated c (some err) = ended none
authenticated c none = verified_at c.parse_certificate c.verify

abbrev pub unless_err : Option String → OutboundEnd → OutboundEnd
unless_err none e = e
unless_err (some err) e = ended (some (plain err))

unfoldable pub outbound_body : OutboundCalls → OutboundEnd
unfolding authenticated
outbound_body c =
    unless_err c.marshal (unless_err c.encrypt (unless_err c.encode (authenticated c c.decode)))

unfoldable pub outbound_end :
    OutboundEnd → ℕ → ℕ → List UdpAddr → AbyssPeer → Option (AbyssPeer × List NetAction)
unfolding finish_outbound
outbound_end died conn stream addresses p = none
outbound_end (ended err) conn stream addresses p =
    some (finish_outbound err conn stream addresses p)

-- `conn` and the encoder are not used where there is an error.
unfoldable pub outbound_opened :
    OutboundCalls
    → ℕ
    → Tried String ℕ
    → List UdpAddr
    → AbyssPeer
    → Option (AbyssPeer × List NetAction)
unfolding outbound_end outbound_body
outbound_opened c conn (failed err) addresses p =
    outbound_end (ended (some (plain err))) conn 0 addresses p
outbound_opened c conn (value stream) addresses p =
    outbound_end (outbound_body c) conn stream addresses p

unfoldable pub outbound_dialed :
    OutboundCalls → Tried String ℕ → List UdpAddr → AbyssPeer → Option (AbyssPeer × List NetAction)
unfolding outbound_end outbound_opened
outbound_dialed c (failed err) addresses p = outbound_end (ended (some (plain err))) 0 0 addresses p
outbound_dialed c (value conn) addresses p = outbound_opened c conn c.open_stream addresses p

-- `address_selected[0]` is dialed.
unfoldable pub outbound_selected :
    OutboundCalls
    → Option (List UdpAddr)
    → List UdpAddr
    → AbyssPeer
    → Option (AbyssPeer × List NetAction)
unfolding outbound_dialed
outbound_selected c none addresses p = none
outbound_selected c (some []) addresses p = none
outbound_selected c (some (first ∷ rest)) addresses p = outbound_dialed c (c.dial first) addresses p

-- `none` is a panic.
unfoldable pub prepare_abyss_outbound :
    BetaAddressSelector
    → OutboundCalls
    → List UdpAddr
    → AbyssPeer
    → Option (AbyssPeer × List NetAction)
unfolding filter_address_candidates outbound_selected
prepare_abyss_outbound s c addresses p =
    outbound_selected c (filter_address_candidates s addresses) addresses p

-- The end of listenAhmp: the error that it holds is not the one of the loop, and is nil.
unfoldable pub listen_end : AbyssPeer → AbyssPeer
listen_end p = record p { state = pncs_closed; err = none }

-- `_trySend` with what Encode returns: whether it was sent, and whether the context is cancelled.
unfoldable pub send_encoded : Option String → AbyssPeer → AbyssPeer × Bool × Bool
send_encoded none p = (p, true, false)
send_encoded (some e) p = (record p { state = pncs_closed; err = some (plain e) }, false, true)

unfoldable pub send_at : PncState → Option String → AbyssPeer → AbyssPeer × Bool × Bool
unfolding send_encoded
send_at pncs_connected encoded p = send_encoded encoded p
send_at _ encoded p = (p, false, false)

unfoldable pub try_send : Option String → AbyssPeer → AbyssPeer × Bool × Bool
unfolding send_at
try_send encoded p = send_at p.state encoded p
