-- ===== src/Film/Keys/Modifiers.antt =====
-- Modified keys: how a specification's prefixes are read, and what goes on the wire.
use hexe.Prelude.{
  ℕ, ◌<◌, ◌≡◌, refl, sym, ap, ◌∙◌, inl, inr, Bool, true, false, ◌&&◌, ◌||◌, none, some, List, [],
  ◌∷◌, ◌++◌, append_assoc, Text, codes, arith, ◌==◌, length, show, text_eq, all_digits-show,
  Bool-cases,
}
use hexe.Film.{find, lower, lower_char}
use hexe.Film.Tables.{keys, arrows, kitty_named}
use hexe.Film.Keys.{
  Held, none_held, is_modifier, upper_head, hold, take_modifiers, mods_of, kitty, modified_key,
  key_bytes, keyspec,
}
use hexe.Frame.Feed.{match_csi}
use hexe.Frame.Address.{ReadsAs, address_numbers, match_csi-digits}

-- A specification: modifier letters, each with its dash, and the key.
abbrev pub prefixed : List ℕ → Text → Text
prefixed [] key = key
prefixed (m ∷ ms) key = m ∷ b'-' ∷ prefixed ms key

abbrev pub AreModifiers : List ℕ → Type 0
AreModifiers [] = Unit
AreModifiers (m ∷ ms) = (is_modifier m ≡ true) × AreModifiers ms

-- A key that is not read as a modifier with its dash.
abbrev pub IsKey : Text → Type 0
IsKey [] = ⊥
IsKey (c ∷ d ∷ e ∷ s) = (is_modifier c && d == b'-') ≡ false
IsKey (c ∷ s) = Unit

abbrev pub hold_all : Held → List ℕ → Held
hold_all h [] = h
hold_all h (m ∷ ms) = hold_all (hold h m) ms

take_modifiers-key : (h : Held) (key : Text) → IsKey key → take_modifiers h key ≡ (h, key)
unfolding take_modifiers
take_modifiers-key h [] k = absurd k
take_modifiers-key h (c ∷ []) k = refl
take_modifiers-key h (c ∷ d ∷ []) k = refl
take_modifiers-key h (c ∷ d ∷ e ∷ s) k = rw k

-- One prefix in front of a text that is not empty.
take_modifiers-prefix :
    (h : Held) (m e : ℕ) (s : Text)
    → is_modifier m ≡ true
    → take_modifiers h (m ∷ b'-' ∷ e ∷ s) ≡ take_modifiers (hold h m) (e ∷ s)
unfolding take_modifiers
take_modifiers-prefix h m e s k = rw k

take_modifiers-prefixed :
    (h : Held) (ms : List ℕ) (key : Text)
    → AreModifiers ms
    → IsKey key
    → take_modifiers h (prefixed ms key) ≡ (hold_all h ms, key)
take_modifiers-prefixed h [] key a k = take_modifiers-key h key k
take_modifiers-prefixed h (m ∷ []) [] a k = absurd k
take_modifiers-prefixed h (m ∷ []) (c ∷ s) a k =
    take_modifiers-prefix h m c s a.0 ∙ take_modifiers-prefixed (hold h m) [] (c ∷ s) tt k
take_modifiers-prefixed h (m ∷ n ∷ ms) key a k =
    take_modifiers-prefix h m n (b'-' ∷ prefixed ms key) a.0
    ∙ take_modifiers-prefixed (hold h m) (n ∷ ms) key a.1 k

keyspec-prefixed :
    (ms : List ℕ) (key : Text)
    → AreModifiers ms
    → IsKey key
    → keyspec (prefixed ms key) ≡ key_bytes (hold_all none_held ms) key
unfolding keyspec
keyspec-prefixed ms key a k =
    ap (λ (p : Held × Text). key_bytes p.0 p.1) (take_modifiers-prefixed none_held ms key a k)

or_swap : (a p q : Bool) → (a || p || q) ≡ (a || q || p)
or_swap a p q = ground arith

or_swap_two : (a p q r s : Bool) → (a || p || q || r || s) ≡ (a || r || s || p || q)
or_swap_two a p q r s = ground arith

hold_comm : (h : Held) (m n : ℕ) → hold (hold h m) n ≡ hold (hold h n) m
hold_comm h m n = λ i. record {
  ctrl = or_swap h.ctrl (upper_head m == b'C') (upper_head n == b'C') i;
  alt =
      or_swap_two h.alt (upper_head m == b'M') (upper_head m == b'A') (upper_head n == b'M')
        (upper_head n == b'A') i;
  shift = or_swap h.shift (upper_head m == b'S') (upper_head n == b'S') i;
}

-- The first two modifiers of a key may be swapped.
keyspec_swap :
    (m n : ℕ) (ms : List ℕ) (key : Text)
    → AreModifiers (m ∷ n ∷ ms)
    → IsKey key
    → keyspec (prefixed (m ∷ n ∷ ms) key) ≡ keyspec (prefixed (n ∷ m ∷ ms) key)
keyspec_swap m n ms key a k =
    keyspec-prefixed (m ∷ n ∷ ms) key a k
    ∙ ap (λ h. key_bytes (hold_all h ms) key) (hold_comm none_held m n)
    ∙ sym (keyspec-prefixed (n ∷ m ∷ ms) key (a.1.0, (a.0, a.1.1)) k)

-- No name in a table has one letter only.
abbrev LongNames {ℓ} : {A : Type ℓ} → List (Text × A) → Type 0
LongNames [] = Unit
LongNames (e ∷ es) = (1 < length e.0) × LongNames es

text_eq-length : (s t : Text) → text_eq s t ≡ true → length s ≡ length t
unfolding text_eq
text_eq-length [] [] h = refl
text_eq-length (x ∷ xs) (y ∷ ys) h = omega (arith, text_eq-length xs ys (ground arith))
text_eq-length (x ∷ xs) [] h = cc
text_eq-length [] (y ∷ ys) h = cc

find-none {ℓ} :
    {A : Type ℓ} (c : ℕ) (table : List (Text × A)) → LongNames table → find (c ∷ []) table ≡ none
unfolding find
find-none c [] l = refl
find-none c (e ∷ es) l = elim (Bool-cases (text_eq e.0 (c ∷ []))) [
  | inl same ↦ absurd (omega (arith, text_eq-length e.0 (c ∷ []) same))
  | inr other ↦ rw other (find-none c es l.1)
]

-- Flags are never dropped again.
mods_grow :
    (h : Held) (c m a s : Bool)
    → 1 < mods_of h
    → 1 < mods_of (record { ctrl = h.ctrl || c; alt = h.alt || m || a; shift = h.shift || s })
mods_grow h c m a s k = ground arith

hold_all-mods : (h : Held) (ms : List ℕ) → 1 < mods_of h → 1 < mods_of (hold_all h ms)
hold_all-mods h [] k = k
hold_all-mods h (m ∷ ms) k = hold_all-mods (hold h m) ms (mods_grow h _ _ _ _ k)

mods_first :
    (c m s a : Bool)
    → (c || m || s || a) ≡ true
    → 1 < mods_of (record { ctrl = false || c; alt = false || m || a; shift = false || s })
mods_first c m s a k = ground arith

hold-mods : (m : ℕ) → is_modifier m ≡ true → 1 < mods_of (hold none_held m)
hold-mods m k =
    mods_first (upper_head m == b'C') (upper_head m == b'M') (upper_head m == b'S')
      (upper_head m == b'A') k

key_bytes-char :
    (h : Held) (c : ℕ)
    → 1 < mods_of h
    → key_bytes h (c ∷ []) ≡ some (kitty (lower_char c) (mods_of h))
unfolding key_bytes modified_key lower
key_bytes-char h c k =
    let modified : (mods_of h == 1) ≡ false = ground arith in
    let no_arrow = find-none (lower_char c) arrows (omega arith) in
    let no_name = find-none (lower_char c) kitty_named (omega arith) in
    let no_key = find-none (lower_char c) keys (omega arith) in
    rw modified (rw no_arrow (rw (no_name, modified_key) (rw no_key)))

kitty-reads :
    (codepoint mods : ℕ)
    → ReadsAs (show codepoint ++ (b';' ∷ (show mods ++ codes "u"))) b'u' (codepoint ∷ mods ∷ [])
unfolding match_csi
kitty-reads codepoint mods = (
  record { params = show codepoint ++ (b';' ∷ show mods); final = b'u'; rest = [] },
  match_csi-digits [] (show codepoint) _ (all_digits-show codepoint)
      ∙ match_csi-digits (show codepoint ++ b';' ∷ []) (show mods) (codes "u")
          (all_digits-show mods)
      ∙ ap (λ p. some (record { params = p; final = b'u'; rest = [] }))
          (append_assoc (show codepoint) (b';' ∷ []) (show mods)),
  refl,
  refl,
  address_numbers codepoint mods,
)

-- Any ASCII character with any modifiers, one at least, goes out as one control sequence: a terminal
-- that reads it finds the final `u`, the lower-case character and the modifiers' number.
pub keyspec_char :
    (m : ℕ) (ms : List ℕ) (c : ℕ)
    → AreModifiers (m ∷ ms)
    → c < 128
    → (body : Text) × (keyspec (prefixed (m ∷ ms) (c ∷ [])) ≡ some (27 ∷ b'[' ∷ body))
      × ReadsAs body b'u' (lower_char c ∷ mods_of (hold_all none_held (m ∷ ms)) ∷ [])
keyspec_char m ms c a ascii =
    let held = hold_all none_held (m ∷ ms) in
    (
      _,
      keyspec-prefixed (m ∷ ms) (c ∷ []) a tt
          ∙ key_bytes-char held c (hold_all-mods (hold none_held m) ms (hold-mods m a.0)),
      kitty-reads (lower_char c) (mods_of held),
    )
