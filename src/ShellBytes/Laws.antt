-- ===== src/ShellBytes/Laws.antt =====
-- src/shell_bytes.rs: what is decoded is encoded again as it was.
use rust_bash.Prelude.{
  ◌≡◌, ◌≢◌, ◌⊎◌, refl, ap, sym, subst, ◌∙◌, ℕ, zero, suc, ◌+◌, ◌-◌, ◌*◌, ◌/◌, ◌%◌, ◌≤◌, ◌<◌, List,
  [], ◌∷◌, ◌++◌, map, Bool, true, false, none, if◌then◌else◌, ltb, arith, length, take, drop,
  take-drop, length-drop, All, append_assoc, Bool-cases, inl, inr,
}
use rust_bash.Prelude.Bytes.{Bytes}
use rust_bash.Pattern.Class.{in_range}
use rust_bash.ShellBytes.{
  Utf8, valid, invalid, truncated, is_continuation, two_bytes, third_byte, three_bytes, fourth_byte,
  four_bytes, next_char, pushed, decode_loop, decode_shell_bytes, marker_byte, encode_utf8,
  encode_char, encode_shell_string,
}

-- A byte, and not the first of a character of the block with the markers.
abbrev pub Ordinary : ℕ → Type 0
Ordinary b = (b < 256) × (b ≢ 0xEE)

encode_char-pushed : (b : ℕ) → b < 256 → encode_char (pushed b) ≡ b ∷ []
unfolding encode_char
encode_char-pushed b h = ground arith

-- What `next_char` says of the bytes b and p.
Faithful : ℕ → Bytes → Utf8 → Type 0
Faithful b p (valid ch rest) = (encode_char ch ++ rest ≡ b ∷ p) × (length rest ≤ length p)
Faithful b p (invalid n) = 1 ≤ n
Faithful b p truncated = Unit

if-Faithful :
    (b : ℕ) (p : Bytes) (t : Bool) (x y : Utf8)
    → (t ≡ true → Faithful b p x)
    → (t ≡ false → Faithful b p y)
    → Faithful b p (if t then x else y)
if-Faithful b p true x y h k = h refl
if-Faithful b p false x y h k = k refl

encode_ascii : (b : ℕ) → b < 0x80 → encode_char b ≡ b ∷ []
unfolding encode_char
encode_ascii b h = ground arith

no_marker : (ch : ℕ) → (ch < 0xE000) ⊎ (0xE0FF < ch) → marker_byte ch ≡ none
unfolding marker_byte
no_marker ch (inl h) = ground arith
no_marker ch (inr h) = ground arith

encode_two :
    (b c ch : ℕ)
    → 0xC2 ≤ b
    → b ≤ 0xDF
    → 0x80 ≤ c
    → c ≤ 0xBF
    → ch ≡ (b - 0xC0) * 64 + (c - 0x80)
    → encode_char ch ≡ b ∷ c ∷ []
unfolding encode_char encode_utf8
encode_two b c ch h1 h2 h3 h4 e =
    let not_marker = no_marker ch (inl (omega arith)) in
    let not_one : ltb ch 0x80 ≡ false = ground arith in
    let is_two : ltb ch 0x800 ≡ true = ground arith in
    let first : 0xC0 + ch / 64 ≡ b = omega arith in
    let second : 0x80 + ch % 64 ≡ c = omega arith in
    rw (encode_char, not_marker, not_one, is_two, first, second) refl

around_markers :
    (b ch : ℕ)
    → b ≢ 0xEE
    → (b - 0xE0) * 4096 ≤ ch
    → ch < (b - 0xE0) * 4096 + 4096
    → (ch < 0xE000) ⊎ (0xE0FF < ch)
around_markers b ch not_ee l u = elim (Bool-cases (ltb b 0xEE)) [
  | inl h ↦ let below : b < 0xEE = ground arith in inl (omega arith)
  | inr h ↦ let above : 0xEE < b = ground arith in inr (omega arith)
]

encode_three :
    (b c d ch : ℕ)
    → 0xE0 ≤ b
    → b ≤ 0xEF
    → 0x80 ≤ c
    → c ≤ 0xBF
    → 0x80 ≤ d
    → d ≤ 0xBF
    → 0x800 ≤ ch
    → b ≢ 0xEE
    → ch ≡ (b - 0xE0) * 4096 + (c - 0x80) * 64 + (d - 0x80)
    → encode_char ch ≡ b ∷ c ∷ d ∷ []
unfolding encode_char encode_utf8
encode_three b c d ch h1 h2 h3 h4 h5 h6 large not_ee e =
    let not_marker = no_marker ch (around_markers b ch not_ee (omega arith) (omega arith)) in
    let not_one : ltb ch 0x80 ≡ false = ground arith in
    let not_two : ltb ch 0x800 ≡ false = ground arith in
    let is_three : ltb ch 0x10000 ≡ true = ground arith in
    let first : 0xE0 + ch / 4096 ≡ b = omega arith in
    let second : 0x80 + ch / 64 % 64 ≡ c = omega arith in
    let third : 0x80 + ch % 64 ≡ d = omega arith in
    rw (encode_char, not_marker, not_one, not_two, is_three, first, second, third) refl

encode_four :
    (b c d f ch : ℕ)
    → 0xF0 ≤ b
    → b ≤ 0xF4
    → 0x80 ≤ c
    → c ≤ 0xBF
    → 0x80 ≤ d
    → d ≤ 0xBF
    → 0x80 ≤ f
    → f ≤ 0xBF
    → 0x10000 ≤ ch
    → ch ≡ (b - 0xF0) * 262144 + (c - 0x80) * 4096 + (d - 0x80) * 64 + (f - 0x80)
    → encode_char ch ≡ b ∷ c ∷ d ∷ f ∷ []
unfolding encode_char encode_utf8
encode_four b c d f ch h1 h2 h3 h4 h5 h6 h7 h8 large e =
    let not_marker = no_marker ch (inr (omega arith)) in
    let not_one : ltb ch 0x80 ≡ false = ground arith in
    let not_two : ltb ch 0x800 ≡ false = ground arith in
    let not_three : ltb ch 0x10000 ≡ false = ground arith in
    let first : 0xF0 + ch / 262144 ≡ b = omega arith in
    let second : 0x80 + ch / 4096 % 64 ≡ c = omega arith in
    let third : 0x80 + ch / 64 % 64 ≡ d = omega arith in
    let fourth : 0x80 + ch % 64 ≡ f = omega arith in
    rw (encode_char, not_marker, not_one, not_two, not_three, first, second, third, fourth) refl

two-Faithful : (b : ℕ) (p : Bytes) → 0xC2 ≤ b → b ≤ 0xDF → Faithful b p (two_bytes b p)
unfolding Faithful
two-Faithful b [] l u = tt
two-Faithful b (c ∷ p) l u =
    if-Faithful b (c ∷ p) (is_continuation c) _ _
      (λ h.
        let first : 0x80 ≤ c = ground arith in
        let last : c ≤ 0xBF = ground arith in
        (
          ap (λ front. front ++ p)
              (encode_two b c ((b - 0xC0) * 64 + (c - 0x80)) l u first last refl),
          omega arith,
        ))
      (λ _. omega arith)

third-Faithful :
    (b c : ℕ) (p : Bytes)
    → 0xE0 ≤ b
    → b ≤ 0xEF
    → b ≢ 0xEE
    → 0x80 ≤ c
    → c ≤ 0xBF
    → 0x800 ≤ (b - 0xE0) * 4096 + (c - 0x80) * 64
    → Faithful b (c ∷ p) (third_byte b c p)
unfolding Faithful
third-Faithful b c [] l u n l' u' large = tt
third-Faithful b c (d ∷ p) l u n l' u' large =
    if-Faithful b (c ∷ d ∷ p) (is_continuation d) _ _
      (λ h.
        let first : 0x80 ≤ d = ground arith in
        let last : d ≤ 0xBF = ground arith in
        (
          ap (λ front. front ++ p)
              (encode_three b c d ((b - 0xE0) * 4096 + (c - 0x80) * 64 + (d - 0x80)) l u l' u' first
                last (omega arith) n refl),
          omega arith,
        ))
      (λ _. omega arith)

three-Faithful :
    (b : ℕ) (p : Bytes) → b ≢ 0xEE → 0xE0 ≤ b → b ≤ 0xEF → Faithful b p (three_bytes b p)
unfolding Faithful
three-Faithful b [] n l u = tt
three-Faithful b (c ∷ p) n l u =
    if-Faithful b (c ∷ p)
      (in_range (if ltb b 0xE1 then 0xA0 else 0x80) (if in_range 0xED 0xED b then 0x9F else 0xBF) c)
      _ _ (λ h. third-Faithful b c p l u n (ground arith) (ground arith) (ground arith))
      (λ _. omega arith)

fourth-Faithful :
    (b c d : ℕ) (p : Bytes)
    → 0xF0 ≤ b
    → b ≤ 0xF4
    → 0x80 ≤ c
    → c ≤ 0xBF
    → 0x80 ≤ d
    → d ≤ 0xBF
    → 0x10000 ≤ (b - 0xF0) * 262144 + (c - 0x80) * 4096
    → Faithful b (c ∷ d ∷ p) (fourth_byte b c d p)
unfolding Faithful
fourth-Faithful b c d [] l u l' u' m v large = tt
fourth-Faithful b c d (e ∷ p) l u l' u' m v large =
    if-Faithful b (c ∷ d ∷ e ∷ p) (is_continuation e) _ _
      (λ h.
        let first : 0x80 ≤ e = ground arith in
        let last : e ≤ 0xBF = ground arith in
        (
          ap (λ front. front ++ p)
              (encode_four b c d e
                ((b - 0xF0) * 262144 + (c - 0x80) * 4096 + (d - 0x80) * 64 + (e - 0x80)) l u l' u' m
                v first last (omega arith) refl),
          omega arith,
        ))
      (λ _. omega arith)

four-Faithful : (b : ℕ) (p : Bytes) → 0xF0 ≤ b → b ≤ 0xF4 → Faithful b p (four_bytes b p)
unfolding Faithful
four-Faithful b [] l u = tt
four-Faithful b (c ∷ []) l u =
    if-Faithful b (c ∷ [])
      (in_range (if ltb b 0xF1 then 0x90 else 0x80) (if ltb b 0xF4 then 0xBF else 0x8F) c) _ _
      (λ _. tt) (λ _. omega arith)
four-Faithful b (c ∷ d ∷ p) l u =
    if-Faithful b (c ∷ d ∷ p)
      (in_range (if ltb b 0xF1 then 0x90 else 0x80) (if ltb b 0xF4 then 0xBF else 0x8F) c) _ _
      (λ h.
        if-Faithful b (c ∷ d ∷ p) (is_continuation d) _ _
          (λ k.
            fourth-Faithful b c d p l u (ground arith) (ground arith) (ground arith) (ground arith)
              (ground arith))
          (λ _. omega arith))
      (λ _. omega arith)

next_char-Faithful : (b : ℕ) (p : Bytes) → Ordinary b → Faithful b p (next_char b p)
unfolding next_char Faithful
next_char-Faithful b p (small, not_ee) =
    if-Faithful b p (ltb b 0x80) _ _
      (λ h. (ap (λ front. front ++ p) (encode_ascii b (ground arith)), omega arith))
      (λ h1.
        if-Faithful b p (in_range 0xC2 0xDF b) _ _
          (λ h2. two-Faithful b p (ground arith) (ground arith))
          (λ h2.
            if-Faithful b p (in_range 0xE0 0xEF b) _ _
              (λ h3. three-Faithful b p not_ee (ground arith) (ground arith))
              (λ h3.
                if-Faithful b p (in_range 0xF0 0xF4 b) _ _
                  (λ h4. four-Faithful b p (ground arith) (ground arith)) (λ _. omega arith))))

encode-append :
    (s t : List ℕ) → encode_shell_string (s ++ t) ≡ encode_shell_string s ++ encode_shell_string t
unfolding encode_shell_string
encode-append [] t = refl
encode-append (ch ∷ s) t =
    ap (λ r. encode_char ch ++ r) (encode-append s t)
    ∙ sym (append_assoc (encode_char ch) (encode_shell_string s) (encode_shell_string t))

encode-pushed : (s : Bytes) → All Ordinary s → encode_shell_string (map pushed s) ≡ s
unfolding encode_shell_string
encode-pushed [] a = refl
encode-pushed (b ∷ s) (h, a) = rw (encode_char-pushed b h.0, encode-pushed s a) refl

All-take : (n : ℕ) (s : Bytes) → All Ordinary s → All Ordinary (take n s)
All-take zero s a = tt
All-take (suc n) [] a = tt
All-take (suc n) (c ∷ s) (h, a) = (h, All-take n s a)

All-drop : (n : ℕ) (s : Bytes) → All Ordinary s → All Ordinary (drop n s)
All-drop zero s a = a
All-drop (suc n) [] a = tt
All-drop (suc n) (c ∷ s) (h, a) = All-drop n s a

All-suffix : (front s : Bytes) → All Ordinary (front ++ s) → All Ordinary s
All-suffix [] s a = a
All-suffix (c ∷ front) s (h, a) = All-suffix front s a

-- One round, where the rest is decoded by `loop`.
round_lem :
    (loop : Bytes → List ℕ) (fuel b : ℕ) (p : Bytes) (piece : Utf8)
    → length p ≤ fuel
    → All Ordinary (b ∷ p)
    → Faithful b p piece
    → ((s : Bytes) → length s ≤ fuel → All Ordinary s → encode_shell_string (loop s) ≡ s)
    → encode_shell_string (elim piece [
      | valid ch rest ↦ ch ∷ loop rest
      | invalid n ↦ map pushed (take n (b ∷ p)) ++ loop (drop n (b ∷ p))
      | truncated ↦ map pushed (b ∷ p)
    ])
      ≡ b ∷ p
unfolding Faithful
round_lem loop fuel b p (valid ch rest) h a (whole, shorter) ih =
    let ordinary : All Ordinary rest =
      All-suffix (encode_char ch) rest (subst (All Ordinary) (sym whole) a) in
    unfold encode_shell_string in
    (ap (λ r. encode_char ch ++ r) (ih rest (omega arith) ordinary) ∙ whole)
round_lem loop fuel b p (invalid n) h a some_bytes ih =
    encode-append (map pushed (take n (b ∷ p))) (loop (drop n (b ∷ p)))
    ∙ ap (λ r. r ++ encode_shell_string (loop (drop n (b ∷ p))))
        (encode-pushed (take n (b ∷ p)) (All-take n (b ∷ p) a))
    ∙ ap (λ r. take n (b ∷ p) ++ r)
        (ih (drop n (b ∷ p)) (omega (arith, length-drop n (b ∷ p))) (All-drop n (b ∷ p) a))
    ∙ take-drop n (b ∷ p)
round_lem loop fuel b p truncated h a _ ih = encode-pushed (b ∷ p) a

decode_loop-encode :
    (fuel : ℕ) (s : Bytes)
    → length s ≤ fuel
    → All Ordinary s
    → encode_shell_string (decode_loop fuel s) ≡ s
unfolding decode_loop encode_shell_string
decode_loop-encode fuel [] h a = refl
decode_loop-encode zero (b ∷ p) h a = absurd (omega arith)
decode_loop-encode (suc fuel) (b ∷ p) h a =
    round_lem (decode_loop fuel) fuel b p (next_char b p) (omega arith) a
      (next_char-Faithful b p a.0) (decode_loop-encode fuel)

-- A byte stream, valid or not, that is made a string is the same bytes again, where no byte is 0xEE, which starts the
-- characters that serve as markers.
pub encode_shell_string-decode_shell_bytes :
    (bytes : Bytes) → All Ordinary bytes → encode_shell_string (decode_shell_bytes bytes) ≡ bytes
unfolding decode_shell_bytes
encode_shell_string-decode_shell_bytes bytes a =
    decode_loop-encode (length bytes) bytes (omega arith) a
