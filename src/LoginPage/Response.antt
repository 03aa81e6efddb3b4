-- ===== src/LoginPage/Response.antt =====
-- An answer in the form of HTTP, and what loginpage.cpp makes of it.
use p2p_messenger.Prelude.{
  ℕ, zero, suc, ◌+◌, ◌^◌, ◌<◌, ◌≤◌, ◌≡◌, ◌≢◌, refl, false, some, List, [], ◌∷◌, ◌++◌, length, All,
  ◌==◌, if◌then◌else◌, bytes_eq, arith, Bool-cases, inl, inr, append_assoc, ◌∙◌, length-append, ap,
  beq_ne, beq_refl,
}
use p2p_messenger.Prelude.Bytes.{Bytes}
use p2p_messenger.Prelude.Outcome.{ok}
use p2p_messenger.External.{Texts, IsLawfulTexts, IsWord, IsBlank}
use p2p_messenger.Address.{to_string}
use p2p_messenger.Address.Parse.{Lacks}
use p2p_messenger.LoginPage.{Page, read_response, on_resolve_clicked}
use p2p_messenger.LoginPage.Input.{Stream, stream_of, getline, skip_headers, carriage_return}
use p2p_messenger.LoginPage.Fields.{
  read_word-append, read_unsigned-append, getline-append, getline-line,
}

-- Header lines as they are sent.
abbrev pub lines : List Bytes → Bytes
lines [] = []
lines (h ∷ hs) = h ++ (13 ∷ 10 ∷ lines hs)

abbrev pub IsHeader : Bytes → Type 0
IsHeader h = (h ≢ []) × Lacks 10 h

more_than_return : (h : Bytes) → h ≢ [] → bytes_eq.beq (h ++ (13 ∷ [])) (13 ∷ []) ≡ false
more_than_return [] e = absurd (e refl)
more_than_return (c ∷ h) e =
    beq_ne ⦃e = bytes_eq⦄ (c ∷ (h ++ (13 ∷ []))) (13 ∷ [])
      λ q. omega (arith, ap (length {A = ℕ}) q, length-append h (13 ∷ []))

skip_one :
    (fuel : ℕ) (s next : Stream) (text : Bytes)
    → getline s ≡ (some text, next)
    → skip_headers (suc fuel) s
      ≡ (if bytes_eq.beq text carriage_return then some next else skip_headers fuel next)
unfolding skip_headers
skip_one fuel s next text e = rw (skip_headers, ap (λ r. r.0) e, ap (λ r. r.1) e)

skip_headers-lines :
    (fuel : ℕ) (hs : List Bytes) (body : Bytes)
    → length hs < fuel
    → All IsHeader hs
    → skip_headers fuel (stream_of (lines hs ++ (13 ∷ 10 ∷ body))) ≡ some (stream_of body)
skip_headers-lines zero hs body k h = absurd (omega arith)
skip_headers-lines (suc fuel) [] body k h =
    skip_one fuel (stream_of (13 ∷ 10 ∷ body)) (stream_of body) carriage_return
      (getline-append (13 ∷ []) body (omega arith, tt))
    ∙ rw (beq_refl ⦃e = bytes_eq⦄ carriage_return)
skip_headers-lines (suc fuel) (x ∷ hs) body k h =
    let rest : Bytes = lines hs ++ (13 ∷ 10 ∷ body) in
    let split : (x ++ (13 ∷ 10 ∷ lines hs)) ++ (13 ∷ 10 ∷ body) ≡ x ++ (13 ∷ 10 ∷ rest) =
      simp append_assoc in
    rw split (
      skip_one fuel (stream_of (x ++ (13 ∷ 10 ∷ rest))) (stream_of rest) (x ++ (13 ∷ []))
        (getline-line x rest h.0.1)
      ∙ rw (more_than_return x h.0.0) (skip_headers-lines fuel hs body (omega arith) h.1))

-- An answer: the version, the code, the reason, the headers and the body.
abbrev pub response : Bytes → ℕ → Bytes → List Bytes → Bytes → Bytes
response version code reason headers body =
    version
    ++ (b' '
        ∷ (to_string code ++ (b' ' ∷ (reason ++ (13 ∷ 10 ∷ (lines headers ++ (13 ∷ 10 ∷ body)))))))

length-lines : (hs : List Bytes) → length hs ≤ length (lines hs)
length-lines [] = omega arith
length-lines (x ∷ hs) = omega (arith, length-append x (13 ∷ 10 ∷ lines hs), length-lines hs)

length-response :
    (version : Bytes) (code : ℕ) (reason : Bytes) (headers : List Bytes) (body : Bytes)
    → length headers < length (response version code reason headers body) + 1
length-response version code reason headers body = omega (
  arith,
  length-lines headers,
  length-append version (
      b' '
      ∷ (to_string code ++ (b' ' ∷ (reason ++ (13 ∷ 10 ∷ (lines headers ++ (13 ∷ 10 ∷ body))))))),
  length-append (to_string code)
      (b' ' ∷ (reason ++ (13 ∷ 10 ∷ (lines headers ++ (13 ∷ 10 ∷ body))))),
  length-append reason (13 ∷ 10 ∷ (lines headers ++ (13 ∷ 10 ∷ body))),
  length-append (lines headers) (13 ∷ 10 ∷ body),
)

module _ (Q : Texts) where
  resolve_response :
      (version : Bytes) (code : ℕ) (reason : Bytes) (headers : List Bytes) (body : Bytes)
      (p : Page Q)
      → version ≢ []
      → IsWord version
      → code < 2 ^ 32
      → Lacks 10 reason
      → All IsHeader headers
      → on_resolve_clicked Q (ok (response version code reason headers body)) p
        ≡ (ok tt, if code == 200 then record p { ip = Q.from_std_string (Q.trim body) } else p)
  unfolding on_resolve_clicked read_response
  resolve_response version code reason headers body p e w k l h =
      let rest : Bytes = lines headers ++ (13 ∷ 10 ∷ body) in
      rw
        (
          read_word-append version (to_string code ++ (b' ' ∷ (reason ++ (13 ∷ 10 ∷ rest)))) e w,
          read_unsigned-append code (reason ++ (13 ∷ 10 ∷ rest)) (omega arith),
          getline-line (b' ' ∷ reason) rest (omega arith, l),
          skip_headers-lines _ headers body (length-response version code reason headers body) h,
        )
        (elim (Bool-cases (code == 200)) [ inl success ↦ rw success | inr failure ↦ rw failure ])

  -- The answer is a version without spaces, a code below 2 ^ 32, a reason, headers that are not empty,
  -- all on lines of their own, an empty line and at most one word, with spaces around it. With the
  -- code 200 the page takes the word for the address: no word at all, if the body was not received
  -- with the headers. With another code the page stays as it is.
  pub resolve_takes_word :
      (L : IsLawfulTexts Q) (version : Bytes) (code : ℕ) (reason : Bytes) (headers : List Bytes)
      (before ip after : Bytes) (p : Page Q)
      → version ≢ []
      → IsWord version
      → code < 2 ^ 32
      → Lacks 10 reason
      → All IsHeader headers
      → IsBlank before
      → IsWord ip
      → IsBlank after
      → on_resolve_clicked Q (ok (response version code reason headers (before ++ (ip ++ after)))) p
        ≡ (ok tt, if code == 200 then record p { ip = Q.from_std_string ip } else p)
  resolve_takes_word L version code reason headers before ip after p e w k l h g i b =
      rw (L.trim_around before ip after g i b) at
        (resolve_response version code reason headers (before ++ (ip ++ after)) p e w k l h)
