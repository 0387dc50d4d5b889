-- ===== src/Handshake.antt =====
-- src-tauri/src/transport/handshake.rs: what happens to an incoming connection up to the offer.
-- The state is the part of `AppState` that it reads and writes. What the peer and the network do
-- is one record: the certificate, the two messages read, and whether the streams work. Times are
-- arguments; the database takes every entry of the security log. `debug` is the derived `{:?}` of
-- a message.
pub mod Gate
pub mod Mismatch
pub mod Versions
mod Tests
use Prim.Native.String.{◌++◌}
use dash_drop.Base.{
  ℕ, String, Bool, true, false, Option, none, some, List, [], ◌∷◌, ◌-◌, ◌&&◌, not, ◌==◌, nat_eq,
  string_eq, if◌then◌else◌, leb, any, find, lookup, insert, unwrap_or, option_map, Result, ok, err,
  is_none, ◌>>=◌, is_blank,
}
use mathlib.Core.List.{reverse}
use dash_drop.Types.Protocol.{
  Read, message, read_error, ErrorCode, version_mismatch, cancelled, identity_mismatch, protocol,
  DashMessage, hello, offer, accept, reject, chunk, complete, ack, cancel, p2p_request,
  p2p_response, HelloPayload, OfferPayload,
}
use dash_drop.Types.Trust.{
  TrustLevel, legacy_paired, signed_link_verified, mutual_confirmed, frozen,
}
use dash_drop.Trust.{
  Peers, Trusted, SecurityEvent, log_event, is_trusted, trust_level_for, freeze_trusted_peer,
}
use dash_drop.RateLimit.{Counter, check_connection_rate_limit, check_offer_rate_limit}

abbrev pub supported_versions : List ℕ
supported_versions = 1 ∷ []

-- The last of our versions that the peer has too.
unfoldable pub negotiate_version : List ℕ → List ℕ → Option ℕ
negotiate_version ours theirs = find (λ v. any (λ w. w == v) theirs) (reverse ours)

unfoldable pub is_identity_mismatch : String → String → Bool
is_identity_mismatch expected actual = not (expected == actual)

pub data MismatchAction : Type 0 where
  audit_only reject_connection : MismatchAction

unfoldable pub incoming_identity_mismatch_action :
    Option String → Option String → Bool → MismatchAction
unfolding is_identity_mismatch
incoming_identity_mismatch_action (some expected) (some actual) hard_reject =
    if hard_reject && is_identity_mismatch expected actual then reject_connection else audit_only
incoming_identity_mismatch_action _ _ hard_reject = audit_only

abbrev pub hard_reject_known_identity_mismatch : Bool
hard_reject_known_identity_mismatch = false

-- A discovered device: its fingerprint, and the addresses of its sessions.
pub record Device : Type 0 where
  pub fingerprint : String
  pub sessions : List (String × List String)

pub data HostEvent : Type 0 where
  identity_mismatch_seen : String → String → String → HostEvent
  peer_frozen : String → HostEvent
  fingerprint_changed : String → String → String → Option TrustLevel → String → HostEvent

pub record Server : Type 0 where
  pub devices : List Device
  pub trusted : Trusted
  pub connection_limits : List (String × Counter)
  pub offer_limits : List (String × Counter)
  pub alerts : List (String × ℕ)
  pub host_events : List HostEvent

pub record Incoming : Type 0 where
  pub peer_cert_fp : Option String
  pub remote_ip : String
  pub remote_addr : String
  pub accepts_bi : Bool
  pub first_read : Read
  pub sends_hello : Bool
  pub second_read : Read

-- How the handler ends: the connection closed, a reject on the control stream, an error, or the
-- offer handed to the receiver with the version and whether a certificate was there.
pub data Refusal : Type 0 where
  closed : String → Refusal
  rejected : ErrorCode → Refusal
  failed : String → Refusal

pub data Outcome : Type 0 where
  refused : Refusal → Outcome
  handed_over : OfferPayload → ℕ → Bool → Outcome

abbrev pub verdict : Option ErrorCode → Outcome → Outcome
verdict (some e) out = refused (rejected e)
verdict none out = out

-- The first session of a device that has the address; it counts only if the fingerprints differ.
unfoldable pub match_session :
    String → String → String → List (String × List String) → Option (String × String)
match_session ip fp cert_fp [] = none
match_session ip fp cert_fp ((session_id, ips) ∷ rest) =
    let later = match_session ip fp cert_fp rest in
    if any (λ a. a == ip) ips then if fp == cert_fp then none else some (fp, session_id) else later

unfoldable pub find_mismatch : String → String → List Device → Option (String × String)
find_mismatch ip cert_fp [] = none
find_mismatch ip cert_fp (d ∷ ds) =
    let rest = find_mismatch ip cert_fp ds in
    elim (match_session ip d.fingerprint cert_fp d.sessions) [
      | none ↦ rest
      | some found ↦ some found
    ]

abbrev pub is_verified_level : Option TrustLevel → Bool
is_verified_level none = false
is_verified_level (some legacy_paired) = false
is_verified_level (some signed_link_verified) = true
is_verified_level (some mutual_confirmed) = true
is_verified_level (some frozen) = false

abbrev pub emit : HostEvent → Server → Server
emit e s = record s { host_events = e ∷ s.host_events }

abbrev pub log_incoming : String → String → String → Server → Server
log_incoming kind fp reason s = record s {
  trusted =
      log_event
        (record {
          event_type = kind;
          phase = "incoming";
          peer_fingerprint = some fp;
          reason = reason;
        })
        s.trusted;
}

pub freeze_text : String → String → String → String
freeze_text session_id mdns_fp cert_fp =
    "Fingerprint changed on session " ++ session_id ++ ": expected " ++ mdns_fp ++ ", saw "
    ++ cert_fp

-- The freeze of a verified peer; the copy in the database follows if `saves`.
unfoldable pub freeze_incoming : ℕ → Bool → String → String → Server → Server
freeze_incoming now saves mdns_fp reason s =
    elim (freeze_trusted_peer mdns_fp reason now s.trusted.peers).1 [
      | none ↦ s
      | some peer ↦
          let peers' = (freeze_trusted_peer mdns_fp reason now s.trusted.peers).0 in
          let kept = record s {
            trusted = record t { peers = peers'; saved = if saves then peers' else t.saved };
          } in
          emit (peer_frozen mdns_fp) (log_incoming "trust_frozen" mdns_fp reason kept)
    ]
  where
    open s use {trusted as t}

unfoldable pub alert_key : String → String → String → String
alert_key session_id mdns_fp cert_fp = session_id ++ "|" ++ mdns_fp ++ "|" ++ cert_fp

-- `fingerprint_changed`, at most once in sixty seconds for one key.
unfoldable pub alert_changed :
    ℕ → String → String → String → Option TrustLevel → String → Server → Server
unfolding alert_key
alert_changed now session_id mdns_fp cert_fp level addr s =
    let key = alert_key session_id mdns_fp cert_fp in
    if leb 60 (now - unwrap_or (lookup key s.alerts) 0)
    then log_incoming "fingerprint_changed" mdns_fp
        ("trusted fingerprint changed on session " ++ session_id ++ ": previous=" ++ mdns_fp
          ++ " current=" ++ cert_fp)
        (emit (fingerprint_changed session_id mdns_fp cert_fp level addr)
          (record s { alerts = insert key now s.alerts }))
    else s

abbrev pub noted_mismatch : String → String → String → Server → Server
noted_mismatch addr mdns_fp cert_fp s =
    log_incoming "identity_mismatch" mdns_fp
      "mDNS identity does not match peer certificate fingerprint"
      (emit (identity_mismatch_seen addr mdns_fp cert_fp) s)

unfoldable pub note_mismatch : ℕ → Bool → String → String → String → String → Server → Server
note_mismatch now saves addr mdns_fp session_id cert_fp s =
    let s1 = noted_mismatch addr mdns_fp cert_fp s in
    let level = trust_level_for mdns_fp s1.trusted.peers in
    let s2 =
      if is_verified_level level
      then freeze_incoming now saves mdns_fp (freeze_text session_id mdns_fp cert_fp) s1
      else s1 in
    let s3 = alert_changed now session_id mdns_fp cert_fp level addr s2 in
    if is_trusted mdns_fp s1.trusted.peers && not (is_trusted cert_fp s1.trusted.peers)
    then s3
    else s1

-- The mismatch that step 2 finds, for a peer with a certificate.
unfoldable pub mismatch_of : Incoming → Server → Option (String × String)
mismatch_of i s = elim i.peer_cert_fp [
  | none ↦ none
  | some cert_fp ↦ find_mismatch i.remote_ip cert_fp s.devices
]

-- The limit of connections, for a peer with a certificate.
unfoldable pub connection_check : ℕ → Incoming → Server → Server × Option ErrorCode
connection_check now i s = elim i.peer_cert_fp [
  | none ↦ (s, none)
  | some cert_fp ↦
      let (limits, over) =
        check_connection_rate_limit now s.trusted.peers cert_fp s.connection_limits in
      (record s { connection_limits = limits }, over)
]

-- The exchange of Hello messages: the chosen version, or how it ends.
unfoldable pub answer_hello : Bool → HelloPayload → Result ℕ Refusal
answer_hello sends h =
    if h.wire_version == 0
    then if sends
      then elim (negotiate_version supported_versions h.supported_versions) [
        | none ↦ err (failed "no common protocol version")
        | some v ↦ ok v
      ]
      else err (failed "write message")
    else err (rejected version_mismatch)

-- The sender's fingerprint must be given, and be the certificate's where there is one.
abbrev pub is_other : Option String → String → Bool
is_other none fp = false
is_other (some cert_fp) fp = not (fp == cert_fp)

unfoldable pub check_sender : Option String → OfferPayload → Result OfferPayload Refusal
check_sender cert o =
    if is_blank o.sender_fingerprint
    then err (rejected (protocol "missing sender fingerprint in Offer"))
    else if is_other cert o.sender_fingerprint
    then err (rejected identity_mismatch)
    else ok o

unfoldable pub admit_offer : ℕ → Option String → ℕ → OfferPayload → Server → Server × Outcome
admit_offer now cert v o s =
    let (limits, over) =
      check_offer_rate_limit now s.trusted.peers o.sender_fingerprint s.offer_limits in
    (record s { offer_limits = limits }, verdict over (handed_over o v (not (is_none cert))))

module _ (debug : DashMessage → String) where
  unfoldable pub greet : Bool → Read → Result ℕ Refusal
  greet sends (read_error e) = err (rejected (protocol ("read Hello failed: " ++ e)))
  greet sends (message (hello h)) = answer_hello sends h
  greet sends (message other) = err (rejected (protocol ("expected Hello, got " ++ debug other)))

  unfoldable pub read_offer : Read → Result OfferPayload Refusal
  read_offer (read_error e) = err (rejected (protocol ("read Offer failed: " ++ e)))
  read_offer (message (offer o)) = ok o
  read_offer (message (cancel c)) = err (rejected cancelled)
  read_offer (message other) = err (rejected (protocol ("expected Offer, got " ++ debug other)))

  -- The part after the mismatch was looked at, up to the rate limit of offers.
  unfoldable pub exchange : Incoming → Result (ℕ × OfferPayload) Refusal
  exchange i = do
    v ← greet i.sends_hello i.first_read
    o ← read_offer i.second_read
    o' ← check_sender i.peer_cert_fp o
    ok (v, o')

  unfoldable pub negotiate : Incoming → Result (ℕ × OfferPayload) Refusal
  unfolding exchange
  negotiate i = if i.accepts_bi then exchange i else err (failed "accept bi stream")

  unfoldable pub after_mismatch : ℕ → Incoming → Server → Server × Outcome
  after_mismatch now i s = elim (negotiate i) [
    | err e ↦ (s, refused e)
    | ok (v, o) ↦ admit_offer now i.peer_cert_fp v o s
  ]

  -- `now_ms` is the monotonic clock, `now` the wall clock in seconds.
  unfoldable pub after_limit : ℕ → ℕ → Bool → Incoming → Server → Server × Outcome
  after_limit now_ms now saves i s = elim (mismatch_of i s) [
    | none ↦ after_mismatch now_ms i s
    | some (mdns_fp, session_id) ↦
        let cert_fp = unwrap_or i.peer_cert_fp "unknown" in
        let s' = note_mismatch now saves i.remote_addr mdns_fp session_id cert_fp s in
        elim (incoming_identity_mismatch_action (some mdns_fp) i.peer_cert_fp
          hard_reject_known_identity_mismatch) [
            | audit_only ↦ after_mismatch now_ms i s'
            | reject_connection ↦ (s', refused (closed "identity mismatch"))
          ]
  ]

  unfoldable pub handle_incoming : ℕ → ℕ → Bool → Incoming → Server → Server × Outcome
  handle_incoming now_ms now saves i s =
      let (s', over) = connection_check now_ms i s in
      elim over [
        | some e ↦ (s', refused (closed "rate limited"))
        | none ↦ after_limit now_ms now saves i s'
      ]
