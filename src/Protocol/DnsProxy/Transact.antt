-- ===== src/Protocol/DnsProxy/Transact.antt =====
-- internal/protocol/dns_proxy.go: one write-read transaction with the upstream.
use mathlib.Core.Path.{sym}
use dotproxy.Base.{
  ℕ, ◌^◌, ◌<◌, ◌≡◌, refl, ap, ◌⊎◌, inl, inr, true, false, not, ◌||◌, ◌∷◌, ◌++◌, Option, none, some,
  arith, length, All, Bool-cases, ◌==◌,
}
use dotproxy.Base.Run.{Returns}
use dotproxy.Network.World.{
  NetConn, Bytes, Error, write_upstream, read_header, read_response, Outcome, done, fail, read_done,
  read_error, write_done, write_error, upstream_latency, emitted, read_from, wrote_to, World, Env,
}
use dotproxy.Network.Server.{udp}
use dotproxy.Protocol.DnsProxy.{
  get_uint16, put_uint16, frame, is_error, read_rest, read_upstream, upstream_transact,
}
use dotproxy.Protocol.DnsProxy.Framing.{IsByte, put-get_uint16}

-- A Read stores bytes.
abbrev pub ReadsBytes : Env → Type 0
ReadsBytes env = (w : World) (c : NetConn) (n : ℕ) → All IsByte (env.read w c n).bytes

-- A call moved `n` bytes, with no error.
abbrev pub IsWhole : Option Error → ℕ → ℕ → Type 0
IsWhole e moved n = (e ≡ none) × (moved ≡ n)

pub IsWhole-cases :
    (e : Option Error) (moved n : ℕ)
    → ((is_error e || not (moved == n)) ≡ false) × IsWhole e moved n
      ⊎ ((is_error e || not (moved == n)) ≡ true) × (¬ IsWhole e moved n)
IsWhole-cases (some e) moved n = inr (refl, λ h. absurd (cc))
IsWhole-cases none moved n = elim (Bool-cases (moved == n)) [
  | inl e ↦ inl (ap not e, (refl, ground arith))
  | inr e ↦ inr (ap not e, λ h. ground arith)
]

reframe :
    (header body : Bytes) (n : ℕ)
    → header ≡ put_uint16 n
    → length body ≡ n
    → header ++ body ≡ frame udp body
reframe header body n p q = rw (p, ← q) refl

module _ (env : Env) (client upstream : NetConn) where
  -- What the trace is after a Write, and after a Read.
  abbrev pub written : Bytes → World → World
  written req w = wrote_to upstream req (env.write w upstream req) ∷ w

  abbrev pub has_read : ℕ → World → World
  has_read n w = read_from upstream n (env.read w upstream n) ∷ w

  abbrev pub sent : Bytes → World → World
  sent req w = emitted (write_done upstream) ∷ written req w

  abbrev pub IsWritten : Bytes → World → Type 0
  IsWritten req w =
      IsWhole (env.write w upstream req).error (env.write w upstream req).count (length req)

  abbrev pub IsRead : ℕ → World → Type 0
  IsRead n w = IsWhole (env.read w upstream n).error (length (env.read w upstream n).bytes) n

  -- The response is the framed body that the second Read stores, after a whole Write of the request
  -- and a whole Read of the header.
  pub record Exchanged (req resp : Bytes) (w w' : World) : Type 0 where
    pub body : Bytes
    pub size : length body < 2 ^ 16
    pub framed : resp ≡ frame udp body
    pub request_written : IsWritten req w
    pub header_read : IsRead 2 (sent req w)
    pub stored : body ≡ (env.read (has_read 2 (sent req w)) upstream (length body)).bytes
    pub trace :
        w'
        ≡ emitted (upstream_latency client upstream)
          ∷ emitted (read_done upstream)
          ∷ has_read (length body) (has_read 2 (sent req w))

  -- The transaction stops at the first call that fails or moves too few bytes, with one error metric.
  pub data Broken (req : Bytes) (w : World) : Error → World → Type 0 where
    unwritten :
        ¬ IsWritten req w
        → Broken req w write_upstream (emitted (write_error upstream) ∷ written req w)
    headless :
        IsWritten req w
        → ¬ IsRead 2 (sent req w)
        → Broken req w read_header (emitted (read_error upstream) ∷ has_read 2 (sent req w))
    bodiless :
        (n : ℕ)
        → IsWritten req w
        → IsRead 2 (sent req w)
        → get_uint16 (env.read (sent req w) upstream 2).bytes ≡ some n
        → ¬ IsRead n (has_read 2 (sent req w))
        → Broken req w read_response
            (emitted (read_error upstream) ∷ has_read n (has_read 2 (sent req w)))

  abbrev pub Transacted : Bytes → World → Outcome Bytes × World → Type 0
  Transacted req w (done resp, w') = Exchanged req resp w w'
  Transacted req w (fail e, w') = Broken req w e w'

  -- If a Read stores bytes, a transaction ends in one of these ways. The request was written whole,
  -- the header and then the body that it sizes were read whole, and the response is the frame of
  -- that body. Or it stopped at the first of these calls that was not whole, with that call's error
  -- and one error metric.
  pub upstream_transact-Transacted :
      (req : Bytes) (w : World)
      → ReadsBytes env
      → Returns (Transacted req w) (upstream_transact env client upstream req w)
  unfolding upstream_transact read_upstream read_rest
  upstream_transact-Transacted req w bytes =
      let r = env.write w upstream req in
      elim (IsWhole-cases r.error r.count (length req)) [
        | inr (e, short) ↦ (
          (fail write_upstream, emitted (write_error upstream) ∷ written req w),
          rw e,
          Broken.unwritten short,
        )
        | inl (e, whole) ↦
            let w₁ = sent req w in
            let h = env.read w₁ upstream 2 in
            elim (IsWhole-cases h.error (length h.bytes) 2) [
              | inr (e', short) ↦ (
                (fail read_header, emitted (read_error upstream) ∷ has_read 2 w₁),
                rw (e, e'),
                Broken.headless whole short,
              )
              | inl (e', head) ↦
                  let w₂ = has_read 2 w₁ in
                  let (n, small, got, put) = put-get_uint16 h.bytes head.1 (bytes w₁ upstream 2) in
                  let b = env.read w₂ upstream n in
                  elim (IsWhole-cases b.error (length b.bytes) n) [
                    | inr (e'', short) ↦ (
                      (fail read_response, emitted (read_error upstream) ∷ has_read n w₂),
                      rw (e, e') (rw got (rw e'')),
                      Broken.bodiless n whole head got short,
                    )
                    | inl (e'', rest) ↦ (
                      (
                        done (h.bytes ++ b.bytes),
                        emitted (upstream_latency client upstream)
                            ∷ emitted (read_done upstream)
                            ∷ has_read n w₂,
                      ),
                      rw (e, e') (rw got (rw e'')),
                      record {
                        body = b.bytes;
                        size = omega (arith, rest.1);
                        framed = reframe h.bytes b.bytes n put rest.1;
                        request_written = whole;
                        header_read = head;
                        stored = ap (λ k. (env.read w₂ upstream k).bytes) (sym rest.1);
                        trace =
                            ap
                              (λ k.
                                emitted (upstream_latency client upstream)
                                ∷ emitted (read_done upstream)
                                ∷ has_read k w₂)
                              (sym rest.1);
                      },
                    )
                  ]
            ]
      ]
