-- ===== src/LoginPage/Ends.antt =====
-- Reading an answer comes to an end, whatever the answer is.
use p2p_messenger.Prelude.{
  ℕ, ◌+◌, ◌≤◌, ◌≡◌, Bool, true, false, Option, none, some, [], ◌∷◌, length, ◌==◌, arith, Bool-cases,
  inl, inr,
}
use p2p_messenger.Prelude.Bytes.{Bytes}
use p2p_messenger.Prelude.Outcome.{ok, undefined}
use p2p_messenger.External.{Texts}
use p2p_messenger.Address.{skip_spaces}
use p2p_messenger.LoginPage.{Page, read_response, on_resolve_clicked}
use p2p_messenger.LoginPage.Input.{
  Stream, stream_of, is_bad, word_at, read_word, read_unsigned, read_digits, unsigned_at, skip_word,
  skip_digits, getline, skip_headers, skip_headers_ends, getline_le,
}

skip_spaces_le : (s : Bytes) → length (skip_spaces s) ≤ length s
unfolding skip_spaces
skip_spaces_le [] = omega arith
skip_spaces_le (c ∷ s) = ground (arith, skip_spaces_le s)

skip_word_le : (s : Bytes) → length (skip_word s) ≤ length s
unfolding skip_word
skip_word_le [] = omega arith
skip_word_le (c ∷ s) = ground (arith, skip_word_le s)

skip_digits_le : (s : Bytes) → length (skip_digits s) ≤ length s
unfolding skip_digits
skip_digits_le [] = omega arith
skip_digits_le (c ∷ s) = ground (arith, skip_digits_le s)

word_at_le : (s : Bytes) → length (word_at s).rest ≤ length s
word_at_le [] = omega arith
word_at_le (c ∷ s) = skip_word_le (c ∷ s)

read_word_le : (s : Stream) → length (read_word s).rest ≤ length s.rest
unfolding read_word
read_word_le s = elim (Bool-cases (is_bad s)) [
  | inl bad ↦ rw bad (omega arith)
  | inr good ↦ rw good (omega (arith, word_at_le (skip_spaces s.rest), skip_spaces_le s.rest))
]

read_digits_le : (negative : Bool) (s : Bytes) → length (read_digits negative s).1.rest ≤ length s
unfolding read_digits
read_digits_le negative [] = omega arith
read_digits_le negative (c ∷ s) = ground (arith, skip_digits_le (c ∷ s))

unsigned_at_le : (s : Bytes) → length (unsigned_at s).1.rest ≤ length s
unfolding unsigned_at
unsigned_at_le [] = omega arith
unsigned_at_le (c ∷ s) =
    ground (arith, read_digits_le true s, read_digits_le false s, read_digits_le false (c ∷ s))

read_unsigned_le : (s : Stream) → length (read_unsigned s).1.rest ≤ length s.rest
unfolding read_unsigned
read_unsigned_le s = elim (Bool-cases (is_bad s)) [
  | inl bad ↦ rw bad (omega arith)
  | inr good ↦ rw good (omega (arith, unsigned_at_le (skip_spaces s.rest), skip_spaces_le s.rest))
]

-- What `status_code` is read to, if it is assigned at all.
abbrev pub code_of : Bytes → Option ℕ
code_of response = (read_unsigned (read_word (stream_of response))).0

headers_end :
    (response : Bytes)
    → let headers = (read_unsigned (read_word (stream_of response))).1 in
      (after : Stream) × (skip_headers (length response + 1) (getline headers).1 ≡ some after)
headers_end response =
    let word : Stream = read_word (stream_of response) in
    let headers : Stream = (read_unsigned word).1 in
    skip_headers_ends (length response + 1) (getline headers).1
      (omega (arith, getline_le headers, read_unsigned_le word, read_word_le (stream_of response)))

module _ (Q : Texts) where
  -- The button's slot ends for every answer: the loop over the headers stops. It is undefined, and
  -- only then, where the stream is at its end before the status code: the code is then compared
  -- without ever having been assigned.
  pub resolve_ends :
      (response : Bytes) (p : Page Q)
      → ((code : ℕ)
          → code_of response ≡ some code
          → (on_resolve_clicked Q (ok response) p).0 ≡ ok tt)
        × (code_of response ≡ none → (on_resolve_clicked Q (ok response) p).0 ≡ undefined)
  unfolding on_resolve_clicked read_response
  resolve_ends response p =
      let (after, ends) = headers_end response in
      (
        λ code e.
            rw (ends, e)
              (elim (Bool-cases (code == 200)) [
                | inl success ↦ rw success
                | inr failure ↦ rw failure
              ]),
        λ e. rw (ends, e),
      )
