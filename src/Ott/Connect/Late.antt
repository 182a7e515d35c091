-- ===== src/Ott/Connect/Late.antt =====
-- The time of the handshake of ott_protocol.c, when the system has been up for 2^32 ms.
use ts_sdk.Prelude.{
  ℕ, suc, ◌+◌, ◌-◌, ◌%◌, ◌^◌, ◌≤◌, ◌<◌, ◌≡◌, refl, true, List, arith, lt→ltb, done,
}
use ts_sdk.SmsNas.Session.{proto_timeout}
use ts_sdk.Ott.Message.{Tls, want_more}
use ts_sdk.Ott.Connect.{Net, initiate_connection, handshake_loop, give_up}

module _ {ℓ} {T : Type ℓ} (tls : Tls T) (net : Net T) (host port : List ℕ) (t : T) where
  -- The connection behind each of the calls.
  abbrev pub connected_at : T
  connected_at = (net.net_connect host port t).1

  abbrev pub set_up_at : T
  set_up_at = (net.ssl_setup connected_at).1

  abbrev pub named_at : T
  named_at = (net.set_hostname host set_up_at).1

  abbrev pub shaken_at : T
  shaken_at = (net.handshake named_at).1

  abbrev pub started_at : T
  started_at = (tls.tick shaken_at).1

  -- When the system has been up for 2^32 ms or more, by a clock of 64 bits that does not go back, the
  -- time limit is below 2^32 ms, the connection and TLS are set up, and the handshake waits for more
  -- behind its first call: `ott_initiate_connection` gives up at once and returns PROTO_TIMEOUT,
  -- however little time has passed, since it keeps the start in 32 bits.
  pub initiate_connection-late :
      (fuel timeout_ms : ℕ)
      → (net.net_connect host port t).0 ≡ true
      → (net.ssl_setup connected_at).0 ≡ true
      → (net.set_hostname host set_up_at).0 ≡ true
      → (net.handshake named_at).0 ≡ want_more
      → 2 ^ 32 ≤ (tls.tick shaken_at).0
      → (tls.tick shaken_at).0 ≤ (tls.tick started_at).0
      → (tls.tick started_at).0 < 2 ^ 64
      → timeout_ms < 2 ^ 32
      → initiate_connection tls net (suc fuel) timeout_ms host port t
        ≡ done (proto_timeout, give_up tls net (tls.tick started_at).1)
  unfolding initiate_connection handshake_loop
  initiate_connection-late fuel timeout_ms c s n h late order fits short =
      let first = (tls.tick shaken_at).0 in
      let now = (tls.tick started_at).0 in
      let long : timeout_ms < (now + 2 ^ 64 - first % 2 ^ 32) % 2 ^ 64 = omega arith in
      rw (c, s, n, h) (rw (lt→ltb timeout_ms _ long) refl)
