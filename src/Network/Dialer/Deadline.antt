-- ===== src/Network/Dialer/Deadline.antt =====
-- internal/network/client.go: what becomes of a connection that tlsDialer opens, and the deadline under
-- which its handshake and its reads and writes are made.
use dotproxy.Base.{
  ℕ, ◌+◌, ◌≡◌, refl, sym, subst, ap, ◌∙◌, inl, inr, [], ◌∷◌, Option, none, some, Bool-cases,
  Option-cases, lt→ltb, arith, if◌then◌else◌,
}
use dotproxy.Base.Int.{pos, pos_part, neg_part, ◌≤ℤ◌, ◌<ℤ◌, ltb_ℤ}
use dotproxy.Base.Time.{Time, Duration}
use dotproxy.Network.World.{done_inj, Bytes, Error, ReadResult, WriteResult, Outcome, done, fail}
use dotproxy.Network.Conn.Transaction.{Timed, tcp_conn-Timed}
use dotproxy.Network.Conn.{
  Call, Calls, Socket, TcpConn, new_tcp_conn, read_deadline, write_deadline, tcp_read, tcp_write,
  no_bytes, none_written,
}
use dotproxy.Network.Dialer.{TlsClientOpts, arm, shake, tls_dialer}

-- The deadlines of a socket, the latest that were set for a read and for a write; a new connection
-- has none.
abbrev pub read_limit : Calls → Option Time
read_limit [] = none
read_limit (Call.dial timeout ∷ w) = none
read_limit (Call.deadline t ∷ w) = some t
read_limit (Call.read_deadline t ∷ w) = some t
read_limit (Call.write_deadline t ∷ w) = read_limit w
read_limit (Call.handshake ∷ w) = read_limit w
read_limit (Call.closing ∷ w) = read_limit w
read_limit (Call.read_from n ∷ w) = read_limit w
read_limit (Call.write_to bs peer ∷ w) = read_limit w
read_limit (Call.read n ∷ w) = read_limit w
read_limit (Call.write bs ∷ w) = read_limit w

abbrev pub write_limit : Calls → Option Time
write_limit [] = none
write_limit (Call.dial timeout ∷ w) = none
write_limit (Call.deadline t ∷ w) = some t
write_limit (Call.read_deadline t ∷ w) = write_limit w
write_limit (Call.write_deadline t ∷ w) = some t
write_limit (Call.handshake ∷ w) = write_limit w
write_limit (Call.closing ∷ w) = write_limit w
write_limit (Call.read_from n ∷ w) = write_limit w
write_limit (Call.write_to bs peer ∷ w) = write_limit w
write_limit (Call.read n ∷ w) = write_limit w
write_limit (Call.write bs ∷ w) = write_limit w

module _ (socket : Socket) (opts : TlsClientOpts) (w : Calls) where
  abbrev dialed : Calls
  dialed = Call.dial opts.connect_timeout ∷ w

  -- The deadline that a handshake is to meet, if there is one.
  abbrev pub limit : Option Time
  limit =
      if ltb_ℤ (pos 0) opts.handshake_timeout
      then some (socket.clock dialed + pos_part opts.handshake_timeout)
      else none

  -- A handshake was made, after the calls `v`, and both limits were in force.
  abbrev pub IsLimited : Calls → Type 0
  IsLimited v = (read_limit v ≡ limit) × (write_limit v ≡ limit)

  -- The dialer failed, and there is no connection; or the handshake failed, under its deadline, and the
  -- connection is being closed; or the handshake succeeded, and the connection has the timeouts of
  -- the options.
  pub data Dialed : Outcome TcpConn × Calls → Type 0 where
    refused :
        (e : Error)
        → socket.dial w opts.connect_timeout ≡ some e
        → Dialed (fail Error.connect_failed, dialed)
    dropped :
        (e : Error) (v : Calls)
        → socket.dial w opts.connect_timeout ≡ none
        → IsLimited v
        → socket.handshake v ≡ some e
        → Dialed (fail Error.handshake_failed, Call.closing ∷ Call.handshake ∷ v)
    connected :
        (v : Calls)
        → socket.dial w opts.connect_timeout ≡ none
        → IsLimited v
        → socket.handshake v ≡ none
        → Dialed (done (new_tcp_conn opts.read_timeout opts.write_timeout), Call.handshake ∷ v)

  armed-IsLimited : IsLimited (arm socket opts.handshake_timeout dialed)
  armed-IsLimited = elim (Bool-cases (ltb_ℤ (pos 0) opts.handshake_timeout)) [
    | inl e ↦ rw e (refl, refl)
    | inr e ↦ rw e (refl, refl)
  ]

  shake-Dialed :
      (v : Calls)
      → socket.dial w opts.connect_timeout ≡ none
      → IsLimited v
      → Dialed (shake socket opts v)
  unfolding shake
  shake-Dialed v up limited = elim (Option-cases (socket.handshake v)) [
    | inl e ↦ rw (shake, e) (Dialed.connected v up limited e)
    | inr (x, e) ↦ rw (shake, e) (Dialed.dropped x v up limited e)
  ]

  -- The dialer of a TLS client fails to connect, and there is nothing to close; or it makes the
  -- handshake, under a deadline for reads and writes exactly if a handshake timeout is set, and
  -- then either hands out the connection, with the read and write timeouts of the options, or, when the
  -- handshake fails, starts to close it.
  pub tls_dialer-Dialed : Dialed (tls_dialer socket opts w)
  unfolding tls_dialer
  tls_dialer-Dialed = elim (Option-cases (socket.dial w opts.connect_timeout)) [
    | inr (x, e) ↦ rw (tls_dialer, e) (Dialed.refused x e)
    | inl e ↦
        rw (tls_dialer, e)
          (shake-Dialed (arm socket opts.handshake_timeout dialed) e armed-IsLimited)
  ]

-- Reads and writes of a connection, in any order.
pub data Used (socket : Socket) (c : TcpConn) (w : Calls) : Calls → Type 0 where
  unused : Used socket c w w
  reads : {v : Calls} (n : ℕ) → Used socket c w v → Used socket c w ((tcp_read socket c n v).1)
  writes :
      {v : Calls} (bs : Bytes) → Used socket c w v → Used socket c w ((tcp_write socket c bs v).1)

module _ (socket : Socket) where
  read-kept :
      (timeout : Duration) (n : ℕ) (v : Calls) (r : ReadResult × Calls)
      → timeout ≤ℤ pos 0
      → Timed socket read_deadline timeout (λ w. (socket.read w n, Call.read n ∷ w)) no_bytes v r
      → read_limit r.1 ≡ read_limit v
  read-kept timeout n v _ off (Timed.untimed _) = refl
  read-kept timeout n v _ off (Timed.timed on _) = absurd (omega (arith, on, off))
  read-kept timeout n v _ off (Timed.refused e on _) = absurd (omega (arith, on, off))

  write-kept :
      (timeout : Duration) (bs : Bytes) (v : Calls) (r : WriteResult × Calls)
      → Timed socket write_deadline timeout
          (λ w. (socket.write w bs, Call.write bs ∷ w))
          none_written
          v
          r
      → read_limit r.1 ≡ read_limit v
  write-kept timeout bs v _ (Timed.untimed _) = refl
  write-kept timeout bs v _ (Timed.timed on _) = refl
  write-kept timeout bs v _ (Timed.refused e on _) = refl

  Used-kept :
      (c : TcpConn) (v w : Calls)
      → c.read_timeout ≤ℤ pos 0
      → Used socket c v w
      → read_limit w ≡ read_limit v
  Used-kept c v _ off Used.unused = refl
  Used-kept c v _ off (Used.reads {v = u} n used) =
      read-kept c.read_timeout n u (tcp_read socket c n u) off (tcp_conn-Timed socket c n [] u).0
      ∙ Used-kept c v u off used
  Used-kept c v _ off (Used.writes {v = u} bs used) =
      write-kept c.write_timeout bs u (tcp_write socket c bs u) (tcp_conn-Timed socket c 0 bs u).1
      ∙ Used-kept c v u off used

  handed_out :
      (opts : TlsClientOpts) (w : Calls) (r : Outcome TcpConn × Calls) (c : TcpConn) (v : Calls)
      → Dialed socket opts w r
      → r ≡ (done c, v)
      → (c.read_timeout ≡ opts.read_timeout) × (read_limit v ≡ limit socket opts w)
  handed_out opts w _ c v (Dialed.refused x e) made = absurd (cc)
  handed_out opts w _ c v (Dialed.dropped x u e limited e') made = absurd (cc)
  handed_out opts w _ c v (Dialed.connected u e limited e') made =
      let handed = done_inj _ c (ap (λ (r : Outcome TcpConn × Calls). r.0) made) in
      (
        sym (ap (λ (t : TcpConn). t.read_timeout) handed),
        sym (ap (λ (r : Outcome TcpConn × Calls). read_limit r.1) made) ∙ limited.0,
      )

  limit_on :
      (opts : TlsClientOpts) (w : Calls)
      → pos 0 <ℤ opts.handshake_timeout
      → limit socket opts w
        ≡ some (socket.clock (Call.dial opts.connect_timeout ∷ w) + pos_part opts.handshake_timeout)
  limit_on opts w on =
      rw (lt→ltb (0 + neg_part opts.handshake_timeout) (pos_part opts.handshake_timeout + 0) on)
        refl

  -- With a handshake timeout and no read timeout, a connection that the dialer hands out keeps the
  -- deadline of its handshake for reads: after any reads and writes, those still to come are made under
  -- the time at which the dialer set the deadline, and the handshake timeout.
  pub handshake_deadline_stays :
      (opts : TlsClientOpts) (w v w' : Calls) (c : TcpConn)
      → pos 0 <ℤ opts.handshake_timeout
      → opts.read_timeout ≤ℤ pos 0
      → tls_dialer socket opts w ≡ (done c, v)
      → Used socket c v w'
      → read_limit w'
        ≡ some (socket.clock (Call.dial opts.connect_timeout ∷ w) + pos_part opts.handshake_timeout)
  handshake_deadline_stays opts w v w' c on off made used =
      let (same, limited) =
        handed_out opts w (tls_dialer socket opts w) c v (tls_dialer-Dialed socket opts w) made in
      Used-kept c v w' (subst (λ t. t ≤ℤ pos 0) (sym same) off) used ∙ limited ∙ limit_on opts w on
