-- ===== src/Client/Post/Body.antt =====
-- `_read_bounded_body` of src/helix_mcp/clients/arapi/client.py: the body is the whole of what was sent,
-- or there is none.
use mathlib.Core.List.{append-nil, append_assoc}
use helix_mcp_gateway.Prelude.{
  ℕ, ◌≡◌, refl, sym, ap, subst, ◌∙◌, ◌≤◌, ◌+◌, true, false, Option, none, some, List, [], ◌∷◌, ◌++◌,
  length, ltb, String, arith, ◌↔◌, length-append, Bool-cases, inl, inr,
}
use helix_mcp_gateway.Prelude.Attempt.{◌>>=◌, bind_some}
use helix_mcp_gateway.Prelude.Action.{ok}
use helix_mcp_gateway.Writes.Models.{JsonInt}
use helix_mcp_gateway.Client.Post.{
  Response, max_response_bytes, is_bounded_length, read_chunks, read_bounded_body,
}

-- The chunks put together; nothing where one of them is a request error.
unfoldable pub whole : List (Option (List ℕ)) → Option (List ℕ)
whole [] = some []
whole (chunk ∷ chunks) = do first ← chunk; rest ← whole chunks; some (first ++ rest)

read_whole :
    (body : List ℕ) (chunks : List (Option (List ℕ))) (result : List ℕ)
    → length body ≤ max_response_bytes
    → read_chunks body chunks ≡ ok result
    → (rest : List ℕ) × (whole chunks ≡ some rest)
      × (body ++ rest ≡ result)
      × (length result ≤ max_response_bytes)
unfolding read_chunks whole
read_whole body [] result fits h =
    let same : body ≡ result = cc h in
    ([], refl, append-nil body ∙ same, subst (λ r. length r ≤ max_response_bytes) same fits)
read_whole body (none ∷ chunks) result fits h = absurd (cc h)
read_whole body (some chunk ∷ chunks) result fits h =
    elim (Bool-cases (ltb max_response_bytes (length body + length chunk))) [
      | inl e ↦ absurd (ground (arith, e, h))
      | inr e ↦
          let longer : length (body ++ chunk) ≤ max_response_bytes =
            ground (arith, e, length-append body chunk) in
          let h₁ : read_chunks (body ++ chunk) chunks ≡ ok result = ground (arith, e, h) in
          let (rest, put, same, within) = read_whole (body ++ chunk) chunks result longer h₁ in
          (chunk ++ rest, rw put refl, sym (append_assoc body chunk rest) ∙ same, within)
    ]

whole_read :
    (body : List ℕ) (chunks : List (Option (List ℕ))) (rest : List ℕ)
    → whole chunks ≡ some rest
    → length (body ++ rest) ≤ max_response_bytes
    → read_chunks body chunks ≡ ok (body ++ rest)
unfolding read_chunks whole
whole_read body [] rest h fits =
    let same : [] ≡ rest = cc h in ap ok (sym (append-nil body) ∙ ap (λ r. body ++ r) same)
whole_read body (none ∷ chunks) rest h fits = absurd (cc h)
whole_read body (some chunk ∷ chunks) rest h fits =
    let (later, put, h₁) = bind_some (whole chunks) (λ rest. some (chunk ++ rest)) h in
    let same : chunk ++ later ≡ rest = cc h₁ in
    let joined : (body ++ chunk) ++ later ≡ body ++ rest =
      append_assoc body chunk later ∙ ap (λ r. body ++ r) same in
    let fits' : length ((body ++ chunk) ++ later) ≤ max_response_bytes =
      subst (λ r. length r ≤ max_response_bytes) (sym joined) fits in
    let within : ltb max_response_bytes (length body + length chunk) ≡ false =
      ground (arith, fits', length-append (body ++ chunk) later, length-append body chunk) in
    rw within (whole_read (body ++ chunk) chunks later put fits' ∙ ap ok joined)

-- A body is read exactly where the length that the answer declares, if it does, is within 8 MiB, no
-- request error cuts it short, and it is within 8 MiB itself; it is then the chunks put together.
pub read_bounded_body_iff :
    (int_of : String → Option JsonInt) (response : Response) (body : List ℕ)
    → (read_bounded_body int_of response ≡ ok body) ↔ (
        (is_bounded_length int_of response.content_length ≡ true)
        × (whole response.chunks ≡ some body)
        × (length body ≤ max_response_bytes))
unfolding read_bounded_body
read_bounded_body_iff int_of response body = (
  λ h. elim (Bool-cases (is_bounded_length int_of response.content_length)) [
    | inl e ↦
        let h₁ : read_chunks [] response.chunks ≡ ok body = ground (arith, e, h) in
        let (rest, put, same, within) = read_whole [] response.chunks body (omega arith) h₁ in
        (e, put ∙ ap some same, within)
    | inr e ↦ absurd (ground (arith, e, h))
  ],
  λ h. rw h.0 (whole_read [] response.chunks body h.1 h.2),
)
