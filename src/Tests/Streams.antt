-- ===== src/Tests/Streams.antt =====
-- Runs of src/shell_bytes.rs.
use rust_bash.Prelude.{◌≡◌, refl, [], ◌∷◌, true, arith}
use rust_bash.ShellBytes.{decode_shell_bytes, encode_shell_string, contains_markers}
use rust_bash.ShellBytes.Laws.{encode_shell_string-decode_shell_bytes}

-- `é`, a byte that starts nothing, and a euro sign that is cut off.
decoded :
    decode_shell_bytes (195 ∷ 169 ∷ 255 ∷ 226 ∷ 130 ∷ []) ≡ 233 ∷ 0xE0FF ∷ 0xE0E2 ∷ 0xE082 ∷ []
unfolding decode_shell_bytes
decoded = refl

marked : contains_markers (decode_shell_bytes (255 ∷ [])) ≡ true
unfolding contains_markers decode_shell_bytes
marked = refl

-- A valid character of the private block comes back as one byte.
clash : encode_shell_string (decode_shell_bytes (238 ∷ 130 ∷ 128 ∷ [])) ≡ 128 ∷ []
unfolding encode_shell_string decode_shell_bytes
clash = refl

encode_shell_string-decode_shell_bytes_example :
    encode_shell_string (decode_shell_bytes (195 ∷ 169 ∷ 255 ∷ [])) ≡ 195 ∷ 169 ∷ 255 ∷ []
encode_shell_string-decode_shell_bytes_example =
    encode_shell_string-decode_shell_bytes (195 ∷ 169 ∷ 255 ∷ []) (
      (omega arith, λ h. absurd (omega arith)),
      ((omega arith, λ h. absurd (omega arith)), ((omega arith, λ h. absurd (omega arith)), tt)),
    )
