-- ===== src/Replies.antt =====
-- The terminals of the query tests: scripts/smoke_color_reply_routing.py, with its twins in
-- scripts/smoke_csi_reply_routing.py (Csi) and scripts/smoke_color_cache.py (Cache). A terminal reads
-- what the frontend writes and answers the queries in it.
pub mod Csi
pub mod Cache
pub mod Once
pub mod Tails
use hexe.Prelude.{
  ℕ, zero, suc, ◌+◌, ◌-◌, max, Bool, true, false, not, Option, none, some, List, [], ◌∷◌, ◌++◌,
  Text, codes, digits, expect, and_then, or_else, find_all, length, drop, if◌then◌else◌,
}

abbrev pub Bytes : Type 0
Bytes = List ℕ

abbrev pub Match : Type 0 → Type 0
Match A = Bytes → Option (A × Bytes)

-- What a colour query asks for: an entry of the palette, by its digits, or one of 10, 11 and 12.
pub data Colour : Type 0 where
  entry : Bytes → Colour
  special : Bytes → Colour

unfoldable pub not_empty : Bytes × Bytes → Option (Bytes × Bytes)
not_empty ([], s) = none
not_empty (d ∷ ds, s) = some (d ∷ ds, s)

-- `\d+`
unfoldable pub digits_of : Bytes → Option (Bytes × Bytes)
unfolding digits not_empty
digits_of s = not_empty (digits s)

-- `4;\d+`
unfoldable pub match_entry : Match Colour
unfolding expect digits_of
match_entry s =
    and_then (expect b'4' s)
      (λ s. and_then (expect b';' s) (λ s. and_then (digits_of s) (λ n. some (entry n.0, n.1))))

unfoldable pub match_one : ℕ → Match Colour
unfolding expect
match_one d s =
    and_then (expect b'1' s) (λ s. and_then (expect d s) (λ s. some (special (b'1' ∷ d ∷ []), s)))

-- `(?:\x1b\\|\x07)`
unfoldable pub match_end : Bytes → Option Bytes
unfolding expect
match_end s = or_else (and_then (expect 0x1b s) (λ s. expect b'\\' s)) (expect 0x07 s)

-- `OSC_COLOR`, `\x1b\]((?:4;\d+)|10|11|12);\?(?:\x1b\\|\x07)`
unfoldable pub match_colour : Match Colour
unfolding match_entry match_one match_end expect
match_colour s = and_then (expect 0x1b s) (λ s. and_then (expect b']' s) (λ s.
    and_then
      (or_else (match_entry s)
        (or_else (match_one b'0' s) (or_else (match_one b'1' s) (match_one b'2' s))))
      (λ what.
        and_then (expect b';' what.1)
          (λ s. and_then (expect b'?' s) (λ s. and_then (match_end s) (λ s. some (what.0, s)))))))

-- `DECRQM`, `\x1b\[\?(\d+)\$p`
unfoldable pub match_mode : Match Bytes
unfolding digits_of expect
match_mode s = and_then (expect 0x1b s) (λ s. and_then (expect b'[' s) (λ s.
    and_then (expect b'?' s) (λ s.
      and_then (digits_of s)
        (λ n. and_then (expect b'$' n.1) (λ s. and_then (expect b'p' s) (λ s. some (n.0, s)))))))

-- `CSI_U`, `\x1b\[\?u`
unfoldable pub match_keys : Match Bytes
unfolding expect
match_keys s = and_then (expect 0x1b s) (λ s.
    and_then (expect b'[' s)
      (λ s. and_then (expect b'?' s) (λ s. and_then (expect b'u' s) (λ s. some ([], s)))))

-- `DA1`, `\x1b\[c`
unfoldable pub match_device : Match Bytes
unfolding expect
match_device s =
    and_then (expect 0x1b s)
      (λ s. and_then (expect b'[' s) (λ s. and_then (expect b'c' s) (λ s. some ([], s))))

-- `consumed = max(consumed, match.end())` over the matches, in a buffer of this length.
unfoldable pub consumed {ℓ} : {A : Type ℓ} → ℕ → List (A × Bytes) → ℕ
consumed n [] = 0
consumed n ((a, tail) ∷ ms) = max (n - length tail) (consumed n ms)

-- `out += ...` over the matches.
unfoldable pub all_of : {A : Type 0} → (A → Bytes) → List (A × Bytes) → Bytes
all_of f [] = []
all_of f ((a, tail) ∷ ms) = f a ++ all_of f ms

abbrev pub string_end : Bytes
string_end = 0x1b ∷ b'\\' ∷ []

unfoldable pub colour_answer : Colour → Bytes
colour_answer (entry n) = 0x1b ∷ codes "]4;" ++ (n ++ (codes ";rgb:6e6e/ffff/5757" ++ string_end))
colour_answer (special what) = 0x1b ∷ b']' ∷ (what ++ (codes ";rgb:2222/5050/1818" ++ string_end))

unfoldable pub mode_answer : Bytes → Bytes
mode_answer n = 0x1b ∷ codes "[?" ++ (n ++ codes ";2$y")

unfoldable pub keys_answer : Bytes → Bytes
keys_answer what = 0x1b ∷ codes "[?0u"

unfoldable pub device_answer : Bytes → Bytes
device_answer what = 0x1b ∷ codes "[?62;4c"

-- What the loops over DECRQM, CSI_U and DA1 answer.
unfoldable pub csi_answers : Bytes → Bytes
unfolding match_mode match_keys match_device all_of mode_answer keys_answer device_answer find_all
csi_answers buf =
    all_of mode_answer (find_all match_mode 0 buf)
    ++ (all_of keys_answer (find_all match_keys 0 buf)
        ++ all_of device_answer (find_all match_device 0 buf))

-- How far all four loops get.
unfoldable pub read_to : Bytes → ℕ
unfolding match_colour match_mode match_keys match_device consumed find_all
read_to buf =
    let n = length buf in
    max (consumed n (find_all match_colour 0 buf)) (
      max (consumed n (find_all match_mode 0 buf))
        (max (consumed n (find_all match_keys 0 buf)) (consumed n (find_all match_device 0 buf))))

abbrev pub is_empty {ℓ} : {A : Type ℓ} → List A → Bool
is_empty [] = true
is_empty (x ∷ xs) = false

pub record Found : Type 0 where
  pub out : Bytes
  pub consumed : ℕ
  pub colors : Bool

-- `host_answers(buf)`
unfoldable pub host_answers : Bytes → Found
unfolding csi_answers read_to colour_answer match_colour all_of find_all
host_answers buf = record {
  out = all_of colour_answer (find_all match_colour 0 buf) ++ csi_answers buf;
  consumed = read_to buf;
  colors = not (is_empty (find_all match_colour 0 buf));
}

-- `buf[max(consumed, len(buf) - 64):]`
unfoldable pub kept : ℕ → Bytes → Bytes
kept consumed buf = drop (max consumed (length buf - 64)) buf

-- What one round of the loop meets: the chunk that is read, nothing for an `OSError`, and whether
-- the pty takes the answer.
pub record Read : Type 0 where
  pub chunk : Option Bytes
  pub takes : Bool

-- What the terminal does: it writes an answer, or sleeps before one.
pub data Act : Type 0 where
  answers : Bytes → Act
  sleeps : ℕ → Act

abbrev pub end_of_input : Option Bytes → Bool
end_of_input none = true
end_of_input (some []) = true
end_of_input (some (c ∷ s)) = false

abbrev pub chunk_of : Option Bytes → Bytes
chunk_of none = []
chunk_of (some s) = s

-- `if colors and color_delay[0]: time.sleep(color_delay[0])`
unfoldable pub delayed : ℕ → Bool → List Act
delayed zero colors = []
delayed (suc n) true = sleeps (suc n) ∷ []
delayed (suc n) false = []

-- What one round does with the answers that it has found, before the rest.
unfoldable pub reply : ℕ → Bool → Found → List Act → List Act
unfolding delayed
reply delay takes found rest =
    if is_empty found.out
    then rest
    else if takes
    then delayed delay found.colors ++ (answers found.out ∷ rest)
    else delayed delay found.colors

-- `host(master)`, from a buffer on: what it does, read by read.
unfoldable pub host : ℕ → Bytes → List Read → List Act
unfolding host_answers kept reply
host delay buf [] = []
host delay buf (r ∷ rs) =
    let bigger = buf ++ chunk_of r.chunk in
    let found = host_answers bigger in
    let rest = host delay (kept found.consumed bigger) rs in
    if end_of_input r.chunk then [] else reply delay r.takes found rest
