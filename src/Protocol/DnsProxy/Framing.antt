-- ===== src/Protocol/DnsProxy/Framing.antt =====
-- The two-byte size header that frames a DNS message over TCP.
use dotproxy.Base.{
  ℕ, ◌+◌, ◌*◌, ◌^◌, ◌<◌, ◌≡◌, refl, ap, ap₂, [], ◌∷◌, ◌++◌, some, arith, length, All,
}
use dotproxy.Network.World.{Bytes}
use dotproxy.Network.Server.{Transport, tcp, udp}
use dotproxy.Protocol.DnsProxy.{put_uint16, get_uint16, frame, unframe}

abbrev pub IsByte : ℕ → Type 0
IsByte b = b < 256

-- A header that was put is read back, below 65,536.
get-put_uint16 : (n : ℕ) (rest : Bytes) → n < 2 ^ 16 → get_uint16 (put_uint16 n ++ rest) ≡ some n
get-put_uint16 n rest p = ap some (omega arith)

-- Two bytes are the header of the number that they encode.
pub put-get_uint16 :
    (header : Bytes)
    → length header ≡ 2
    → All IsByte header
    → (n : ℕ) × (n < 2 ^ 16) × (get_uint16 header ≡ some n) × (header ≡ put_uint16 n)
put-get_uint16 [] e all = absurd (omega arith)
put-get_uint16 (a ∷ []) e all = absurd (omega arith)
put-get_uint16 (a ∷ b ∷ []) e (p, (q, _)) =
    (256 * a + b, omega arith, refl, ap₂ (λ x y. x ∷ y ∷ []) (omega arith) (omega arith))
put-get_uint16 (a ∷ b ∷ c ∷ rest) e all = absurd (omega arith)

-- Framing a message loses nothing: taking the header off gives the message back; and, for a message
-- of less than 65,536 bytes, the header put before it is its length.
pub unframe-frame :
    (t : Transport) (bs : Bytes)
    → (unframe t (frame t bs) ≡ some bs)
      × (length bs < 2 ^ 16 → get_uint16 (frame udp bs) ≡ some (length bs))
unframe-frame tcp bs = (refl, get-put_uint16 (length bs) bs)
unframe-frame udp bs = (refl, get-put_uint16 (length bs) bs)

-- A framed message is made of bytes, as the message is.
pub frame-IsByte : (t : Transport) (bs : Bytes) → All IsByte bs → All IsByte (frame t bs)
frame-IsByte tcp bs all = all
frame-IsByte udp bs all = (omega arith, (omega arith, all))
