-- ===== src/Network/Conn/Transaction.antt =====
-- What a deadline does to a read or a write, and the one transaction of a UDP connection.
use dotproxy.Base.{
  ℕ, ◌+◌, ◌≡◌, refl, ◌⊎◌, inl, inr, true, false, ◌∷◌, Option, none, some, arith, sym, subst, ap,
  ◌∙◌, Bool-cases, Option-cases,
}
use dotproxy.Base.Int.{pos, pos_part, ◌≤ℤ◌, ◌<ℤ◌, ltb_ℤ}
use dotproxy.Base.Time.{Time, Duration}
use dotproxy.Network.World.{Bytes, Error, ReadResult}
use dotproxy.Network.Conn.{
  Addr, Call, Calls, Socket, UdpConn, TcpConn, read_deadline, write_deadline, already_associated,
  no_remote, no_bytes, none_written, with_deadline, udp_read, udp_write, tcp_read, tcp_write,
}

module _ (socket : Socket) where
  -- A call under a timeout: without one it is made at once; with one, the deadline is set first, at
  -- the clock's time and the timeout; if that fails the call is not made.
  pub data Timed {A : Type 0} (deadline : Time → Call) (timeout : Duration)
      (make : Calls → A × Calls) (refuse : Error → A) (w : Calls) : A × Calls → Type 0 where
    untimed : timeout ≤ℤ pos 0 → Timed deadline timeout make refuse w (make w)
    timed :
        pos 0 <ℤ timeout
        → socket.set_deadline w (deadline (socket.clock w + pos_part timeout)) ≡ none
        → Timed deadline timeout make refuse w
            (make (deadline (socket.clock w + pos_part timeout) ∷ w))
    refused :
        (e : Error)
        → pos 0 <ℤ timeout
        → socket.set_deadline w (deadline (socket.clock w + pos_part timeout)) ≡ some e
        → Timed deadline timeout make refuse w
            (refuse e, deadline (socket.clock w + pos_part timeout) ∷ w)

  -- The code that makes a call under a timeout.
  abbrev under :
      {A : Type 0}
      → (Time → Call)
      → Duration
      → (Calls → A × Calls)
      → (Error → A)
      → Calls
      → A × Calls
  under deadline timeout make refuse w =
      let ready = with_deadline socket deadline timeout w in
      elim ready.0 [ some e ↦ (refuse e, ready.1) | none ↦ make ready.1 ]

  ready_off :
      (deadline : Time → Call) (timeout : Duration) (w : Calls)
      → ltb_ℤ (pos 0) timeout ≡ false
      → with_deadline socket deadline timeout w ≡ (none, w)
  unfolding with_deadline
  ready_off deadline timeout w off = rw off refl

  ready_on :
      (deadline : Time → Call) (timeout : Duration) (w : Calls)
      → ltb_ℤ (pos 0) timeout ≡ true
      → let set = deadline (socket.clock w + pos_part timeout) in
        with_deadline socket deadline timeout w ≡ (socket.set_deadline w set, set ∷ w)
  unfolding with_deadline
  ready_on deadline timeout w on = rw on refl

  finish : {A : Type 0} → (Calls → A × Calls) → (Error → A) → Option Error × Calls → A × Calls
  finish make refuse ready = elim ready.0 [ some e ↦ (refuse e, ready.1) | none ↦ make ready.1 ]

  under-Timed :
      {A : Type 0} (deadline : Time → Call) (timeout : Duration) (make : Calls → A × Calls)
      (refuse : Error → A) (w : Calls)
      → Timed deadline timeout make refuse w (under deadline timeout make refuse w)
  unfolding finish
  under-Timed deadline timeout make refuse w =
      let set = deadline (socket.clock w + pos_part timeout) in
      let at =
        λ (r : Option Error × Calls). Timed deadline timeout make refuse w (finish make refuse r) in
      elim (Bool-cases (ltb_ℤ (pos 0) timeout)) [
        | inr off ↦ subst at (sym (ready_off deadline timeout w off)) (Timed.untimed (ground arith))
        | inl on ↦
            let ready = ready_on deadline timeout w on in
            elim (Option-cases (socket.set_deadline w set)) [
              | inl e ↦
                  subst at (sym (ready ∙ ap (λ (o : Option Error). (o, set ∷ w)) e))
                    (Timed.timed (ground arith) e)
              | inr (x, e) ↦
                  subst at (sym (ready ∙ ap (λ (o : Option Error). (o, set ∷ w)) e))
                    (Timed.refused x (ground arith) e)
            ]
      ]

  -- A TCP connection reads, and writes, under its timeout: without one the call is made at once; with
  -- one the deadline is set first, and if that fails its error is returned and the call is not made.
  pub tcp_conn-Timed :
      (c : TcpConn) (n : ℕ) (bs : Bytes) (w : Calls)
      → Timed read_deadline c.read_timeout
          (λ w. (socket.read w n, Call.read n ∷ w))
          no_bytes
          w
          (tcp_read socket c n w)
        × Timed write_deadline c.write_timeout
            (λ w. (socket.write w bs, Call.write bs ∷ w))
            none_written
            w
            (tcp_write socket c bs w)
  unfolding tcp_read tcp_write
  tcp_conn-Timed c n bs w = (
    under-Timed read_deadline c.read_timeout (λ w. (socket.read w n, Call.read n ∷ w)) no_bytes w,
    under-Timed write_deadline c.write_timeout (λ w. (socket.write w bs, Call.write bs ∷ w))
        none_written w,
  )

  abbrev receive : UdpConn → ℕ → Calls → (UdpConn × ReadResult) × Calls
  receive c n w = (
    (record c { remote = (socket.read_from w n).from }, (socket.read_from w n).read),
    Call.read_from n ∷ w,
  )

  abbrev pub Exchanges : UdpConn → ℕ → Bytes → Calls → Type 0
  Exchanges c n bs w =
      (c.remote ≡ none)
        × Timed read_deadline c.read_timeout (receive c n) (λ e. (c, no_bytes e)) w
            (udp_read socket c n w)
        × (udp_write socket c bs w ≡ (none_written no_remote, w))
      ⊎ ((peer : Addr) × (c.remote ≡ some peer)
          × (udp_read socket c n w ≡ ((c, no_bytes already_associated), w))
          × Timed write_deadline c.write_timeout
              (λ w. (socket.write_to w bs peer, Call.write_to bs peer ∷ w)) none_written w
              (udp_write socket c bs w))

  by_remote :
      (r t : Duration) (remote : Option Addr) (n : ℕ) (bs : Bytes) (w : Calls)
      → Exchanges (record { read_timeout = r; write_timeout = t; remote = remote }) n bs w
  unfolding udp_read udp_write
  by_remote r t none n bs w =
      let c : UdpConn = record { read_timeout = r; write_timeout = t; remote = none } in
      inl (refl, under-Timed read_deadline r (receive c n) (λ e. (c, no_bytes e)) w, refl)
  by_remote r t (some peer) n bs w = inr (
    peer,
    refl,
    refl,
    under-Timed write_deadline t (λ w. (socket.write_to w bs peer, Call.write_to bs peer ∷ w))
        none_written w,
  )

  -- A UDP connection is for one transaction. Before it has read a datagram, a read is made under its
  -- timeout and remembers the datagram's peer, and a write is an error and asks nothing of the socket.
  -- With a peer, a read is an error and asks nothing, and a write goes to that peer, under its timeout.
  pub udp_conn-Exchanges : (c : UdpConn) (n : ℕ) (bs : Bytes) (w : Calls) → Exchanges c n bs w
  udp_conn-Exchanges c n bs w = by_remote c.read_timeout c.write_timeout c.remote n bs w
