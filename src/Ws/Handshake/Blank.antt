-- ===== src/Ws/Handshake/Blank.antt =====
-- The first blank line of a response to the opening handshake of src/modules/ws.rs is at its end.
use telegram_socks_ws_proxy.Base.{
  ℕ, ◌-◌, ◌≡◌, refl, sym, ap, ◌∙◌, arith, ◌==◌, leb, le→leb, Bool, true, false, ◌&&◌, and-true,
  Bool-cases, inl, inr, List, [], ◌∷◌, ◌++◌, append_assoc, length, length-append, take, drop,
  drop-append, take-append-drop, All,
}
use telegram_socks_ws_proxy.Base.Utf8.{Str, codes}
use telegram_socks_ws_proxy.Base.Text.{ends_with, eq_str→≡, eq_str_refl}
use telegram_socks_ws_proxy.Base.Decimal.{to_string}
use telegram_socks_ws_proxy.Ws.Handshake.{crlf, two_crlf, is_complete}
use telegram_socks_ws_proxy.Ws.Handshake.Headers.{is_open}
use telegram_socks_ws_proxy.Ws.Handshake.Exchange.{line}
use telegram_socks_ws_proxy.Ws.Handshake.RoundTrip.{
  header_text, header_lines, response_text, IsInLine, IsHeaderLine, header_text-IsInLine,
  status_line, status_line-IsInLine,
}
use telegram_socks_ws_proxy.Ws.Handshake.LastValue.{Header}

-- Two ends of one list that have one length are one.
suffix_unique : (g k t u : List ℕ) → length t ≡ length u → g ++ t ≡ k ++ u → t ≡ u
suffix_unique g k t u size same =
    let front : length g ≡ length k =
      omega (arith, ap length same, length-append g t, length-append k u) in
    sym (drop-append g t)
    ∙ ap (λ l. drop (length g) l) same
    ∙ ap (λ n. drop n (k ++ u)) front
    ∙ drop-append k u

ends_with-split : (p s : List ℕ) → ends_with p s ≡ true → (k : List ℕ) × (s ≡ k ++ p)
unfolding ends_with
ends_with-split p s h =
    let (fits, same) = and-true (leb (length p) (length s)) h in
    (
      take (length s - length p) s,
      sym (take-append-drop (length s - length p) s)
          ∙ ap (λ l. take (length s - length p) s ++ l) (eq_str→≡ _ _ same),
    )

ends_with-append : (k p : List ℕ) → ends_with p (k ++ p) ≡ true
unfolding ends_with
ends_with-append k p =
    let fits = le→leb (length p) (length (k ++ p)) (omega (arith, length-append k p)) in
    let before : length (k ++ p) - length p ≡ length k = omega (arith, length-append k p) in
    rw (fits, before, drop-append k p) (eq_str_refl p)

complete-ends : (s : List ℕ) → is_complete s ≡ true → (k : List ℕ) × (s ≡ k ++ two_crlf)
unfolding is_complete
complete-ends s h =
    let (enough, tests) = and-true (leb 2 (length s)) h in
    let (more, ends) = and-true (ends_with crlf s && leb 4 (length s)) tests in
    ends_with-split two_crlf s ends

-- Only the end of a line completes the header, and only behind an empty one.
inner-open : (h : List ℕ) (c : ℕ) → (c == 10) ≡ false → is_complete (h ++ (c ∷ [])) ≡ false
inner-open h c other = elim (Bool-cases (is_complete (h ++ (c ∷ [])))) [
  | inr open_still ↦ open_still
  | inl full ↦
      let (k, same) = complete-ends (h ++ (c ∷ [])) full in
      let last =
        suffix_unique h (k ++ (13 ∷ 10 ∷ 13 ∷ [])) (c ∷ []) (10 ∷ []) refl
          (same ∙ sym (append_assoc k (13 ∷ 10 ∷ 13 ∷ []) (10 ∷ []))) in
      absurd (clash last)
]
  where
    clash : ¬ (c ∷ [] ≡ 10 ∷ [])
    clash e = ground arith

line_end-open :
    (h : List ℕ) (c : ℕ) → (c == 10) ≡ false → is_complete (h ++ (c ∷ 13 ∷ 10 ∷ [])) ≡ false
line_end-open h c other = elim (Bool-cases (is_complete (h ++ (c ∷ 13 ∷ 10 ∷ [])))) [
  | inr open_still ↦ open_still
  | inl full ↦
      let (k, same) = complete-ends (h ++ (c ∷ 13 ∷ 10 ∷ [])) full in
      let last =
        suffix_unique h (k ++ (13 ∷ [])) (c ∷ 13 ∷ 10 ∷ []) (10 ∷ 13 ∷ 10 ∷ []) refl
          (same ∙ sym (append_assoc k (13 ∷ []) (10 ∷ 13 ∷ 10 ∷ []))) in
      absurd (clash last)
]
  where
    clash : ¬ (c ∷ 13 ∷ 10 ∷ [] ≡ 10 ∷ 13 ∷ 10 ∷ [])
    clash e = ground arith

is_open-cons :
    (h : List ℕ) (b c : ℕ) (rest : List ℕ)
    → is_complete (h ++ (b ∷ [])) ≡ false
    → is_open (h ++ (b ∷ [])) (c ∷ rest) ≡ true
    → is_open h (b ∷ c ∷ rest) ≡ true
unfolding is_open
is_open-cons h b c rest short more = rw (short, more)

is_open-last : (h : List ℕ) (b : ℕ) → is_open h (b ∷ []) ≡ true
unfolding is_open
is_open-last h b = refl

-- A line that is not empty leaves the header open.
is_open-line :
    (h : List ℕ) (c : ℕ) (s : Str) (d : ℕ) (rest : Str)
    → All IsInLine (c ∷ s)
    → is_open (h ++ ((c ∷ s) ++ crlf)) (d ∷ rest) ≡ true
    → is_open h (line (c ∷ s) (d ∷ rest)) ≡ true
is_open-line h c [] d rest (one, inside) more =
    let lf : (h ++ (c ∷ [])) ++ (13 ∷ 10 ∷ []) ≡ h ++ (c ∷ 13 ∷ 10 ∷ []) =
      append_assoc h (c ∷ []) (13 ∷ 10 ∷ []) in
    let ended : ((h ++ (c ∷ [])) ++ (13 ∷ [])) ++ (10 ∷ []) ≡ h ++ (c ∷ 13 ∷ 10 ∷ []) =
      append_assoc (h ++ (c ∷ [])) (13 ∷ []) (10 ∷ []) ∙ lf in
    is_open-cons h c 13 (10 ∷ d ∷ rest) (inner-open h c one.1) (
      is_open-cons (h ++ (c ∷ [])) 13 10 (d ∷ rest) (inner-open (h ++ (c ∷ [])) 13 refl) (
        is_open-cons ((h ++ (c ∷ [])) ++ (13 ∷ [])) 10 d rest
          (ap is_complete ended ∙ line_end-open h c one.1)
          (ap (λ l. is_open l (d ∷ rest)) ended ∙ more)))
is_open-line h c (e ∷ s) d rest (one, inside) more =
    is_open-cons h c e (s ++ (crlf ++ (d ∷ rest))) (inner-open h c one.1) (
      is_open-line (h ++ (c ∷ [])) e s d rest inside
        (ap (λ l. is_open l (d ∷ rest)) (append_assoc h (c ∷ []) ((e ∷ s) ++ crlf)) ∙ more))

header_lines-cons :
    (headers : List Header) → (d : ℕ) × (rest : Str) × (header_lines headers ≡ d ∷ rest)
header_lines-cons [] = (13, 10 ∷ [], refl)
header_lines-cons (([], value) ∷ headers) = (b':', _, refl)
header_lines-cons ((c ∷ name, value) ∷ headers) = (c, _, refl)

-- Of a text before the headers as well.
is_open-front :
    (h : List ℕ) (c : ℕ) (s : Str) (headers : List Header)
    → All IsInLine (c ∷ s)
    → ((h' : List ℕ) → is_open h' (header_lines headers) ≡ true)
    → is_open h (line (c ∷ s) (header_lines headers)) ≡ true
is_open-front h c s headers inside later =
    let (d, rest, front) = header_lines-cons headers in
    ap (λ l. is_open h (line (c ∷ s) l)) front
    ∙ is_open-line h c s d rest inside
        (ap (is_open (h ++ ((c ∷ s) ++ crlf))) (sym front) ∙ later (h ++ ((c ∷ s) ++ crlf)))

is_open-header_lines :
    (headers : List Header) (h : List ℕ)
    → All IsHeaderLine headers
    → is_open h (header_lines headers) ≡ true
is_open-header_lines [] h known =
    is_open-cons h 13 10 [] (inner-open h 13 refl) (is_open-last (h ++ (13 ∷ [])) 10)
is_open-header_lines (([], value) ∷ headers) h (one, known) =
    is_open-front h b':' (b' ' ∷ value) headers (header_text-IsInLine ([], value) one)
      (λ h'. is_open-header_lines headers h' known)
is_open-header_lines ((c ∷ name, value) ∷ headers) h (one, known) =
    is_open-front h c (name ++ (b':' ∷ b' ' ∷ value)) headers
      (header_text-IsInLine (c ∷ name, value) one) (λ h'. is_open-header_lines headers h' known)

pub response_text-open :
    (status : ℕ) (reason : Str) (headers : List Header)
    → All IsInLine reason
    → All IsHeaderLine headers
    → is_open [] (response_text status reason headers) ≡ true
response_text-open status reason headers plain known =
    is_open-front [] b'H' (codes "TTP/1.1 " ++ (to_string status ++ (b' ' ∷ reason))) headers
      (status_line-IsInLine status reason plain) (λ h'. is_open-header_lines headers h' known)

-- The text ends with a blank line.
line-blank :
    (s rest : Str)
    → ((k : List ℕ) × (crlf ++ rest ≡ k ++ two_crlf))
    → (k : List ℕ) × (line s rest ≡ k ++ two_crlf)
line-blank s rest (k, e) = (s ++ k, ap (λ l. s ++ l) e ∙ sym (append_assoc s k two_crlf))

header_lines-blank :
    (headers : List Header) → (k : List ℕ) × (crlf ++ header_lines headers ≡ k ++ two_crlf)
header_lines-blank [] = ([], refl)
header_lines-blank (h ∷ headers) =
    let (k, e) = line-blank (header_text h) (header_lines headers) (header_lines-blank headers) in
    (crlf ++ k, ap (λ l. crlf ++ l) e)

both : {a b : Bool} → a ≡ true → b ≡ true → (a && b) ≡ true
both h k = rw (h, k)

complete_append : (k : List ℕ) → is_complete (k ++ two_crlf) ≡ true
unfolding is_complete
complete_append k =
    let size = length-append k two_crlf in
    let ends : ends_with crlf (k ++ two_crlf) ≡ true =
      ap (ends_with crlf) (sym (append_assoc k crlf crlf)) ∙ ends_with-append (k ++ crlf) crlf in
    both (le→leb 2 (length (k ++ two_crlf)) (omega (arith, size))) (
      both (both ends (le→leb 4 (length (k ++ two_crlf)) (omega (arith, size))))
        (ends_with-append k two_crlf))

pub response_text_complete :
    (status : ℕ) (reason : Str) (headers : List Header)
    → is_complete (response_text status reason headers) ≡ true
response_text_complete status reason headers =
    let (k, e) =
      line-blank (status_line status reason) (header_lines headers) (header_lines-blank headers) in
    ap is_complete e ∙ complete_append k
