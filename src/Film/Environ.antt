-- ===== src/Film/Environ.antt =====
-- scripts/demo/record.py: `environ`, the environment that the recorded programs start with.
use hexe.Prelude.{
  ◌≡◌, refl, sym, ap, ◌∙◌, inl, inr, false, Option, none, some, List, [], ◌∷◌, ◌++◌, Text, codes,
  text_eq, text_eq_refl, text_eq→eq, if◌then◌else◌, if-true, if-false, Bool-cases,
}
use hexe.Film.{find}
use hexe.Film.Subst.{Names, subst}
use hexe.Film.Script.{assign_env}

abbrev pub Env : Type 0
Env = List (Text × Text)

-- What the recorder takes from its own surroundings; `bin` is the directory of the binary.
pub record Place : Type 0 where
  pub bin : Text
  pub path : Option Text
  pub user : Option Text
  pub shell : Text
  pub names : Names

or_default : Text → Option Text → Text
or_default d none = d
or_default d (some t) = t

-- The variables that every demo has.
unfoldable pub base_env : Place → Env
unfolding or_default
base_env p =
    let work = p.names.work in
    (codes "PATH", p.bin ++ (codes ":" ++ or_default (codes "/usr/bin:/bin") p.path))
    ∷ (codes "HOME", work ++ codes "/home")
    ∷ (codes "XDG_CONFIG_HOME", work ++ codes "/home/.config")
    ∷ (codes "XDG_STATE_HOME", work ++ codes "/state")
    ∷ (codes "XDG_DATA_HOME", work ++ codes "/data")
    ∷ (codes "XDG_RUNTIME_DIR", work ++ codes "/run")
    ∷ (codes "HEXE_DEMO_BIN", p.bin)
    ∷ (codes "HEXE_INSTANCE", p.names.instance_name)
    ∷ (codes "TERM", codes "xterm-256color")
    ∷ (codes "SHELL", p.shell)
    ∷ (codes "OSLO_PROFILE", codes "demo")
    ∷ (codes "LANG", codes "C.UTF-8")
    ∷ (codes "COLORTERM", codes "truecolor")
    ∷ (codes "USER", or_default (codes "demo") p.user)
    ∷ []

-- `for k, v in self.extra_env.items(): env[k] = self.subst(v)`
unfoldable pub with_extra : Names → Env → Env → Env
with_extra names env [] = env
with_extra names env ((k, v) ∷ more) = with_extra names (assign_env k (subst names v) env) more

unfoldable pub environ : Place → Env → Env
unfolding base_env with_extra
environ p extra = with_extra p.names (base_env p) extra

-- A dictionary has each key once.
abbrev pub IsDict : Env → Type 0
IsDict [] = Unit
IsDict ((k, v) ∷ more) = (find k more ≡ none) × IsDict more

find-assign_env : (k v : Text) (env : Env) → find k (assign_env k v env) ≡ some v
unfolding find assign_env
find-assign_env k v [] = if-true (text_eq k k) _ _ (text_eq_refl k)
find-assign_env k v ((j, w) ∷ more) = elim (Bool-cases (text_eq j k)) [
  | inl same ↦ rw same (if-true (text_eq k k) _ _ (text_eq_refl k))
  | inr other ↦ rw (other, other) (find-assign_env k v more)
]

find-assign_env_other :
    (j k v : Text) (env : Env) → text_eq j k ≡ false → find k (assign_env j v env) ≡ find k env
unfolding find assign_env
find-assign_env_other j k v [] h = if-false (text_eq j k) _ _ h
find-assign_env_other j k v ((i, w) ∷ more) h = elim (Bool-cases (text_eq i j)) [
  | inl same ↦
      let i_other : text_eq i k ≡ false = ap (λ t. text_eq t k) (text_eq→eq i j same) ∙ h in
      rw (same, h, i_other) refl
  | inr other ↦
      rw other (ap (λ r. if text_eq i k then some w else r) (find-assign_env_other j k v more h))
]

-- The value that a demo gives a variable, its names replaced.
abbrev substituted : Names → Option Text → Option Text → Option Text
substituted names base none = base
substituted names base (some v) = some (subst names v)

find-with_extra :
    (names : Names) (env extra : Env) (k : Text)
    → IsDict extra
    → find k (with_extra names env extra) ≡ substituted names (find k env) (find k extra)
unfolding with_extra find
find-with_extra names env [] k h = refl
find-with_extra names env ((j, v) ∷ more) k (fresh, h) =
    find-with_extra names (assign_env j (subst names v) env) more k h
    ∙ elim (Bool-cases (text_eq j k)) [
      | inl same ↦
          let eq = text_eq→eq j k same in
          let gone : find k more ≡ none = ap (λ t. find t more) (sym eq) ∙ fresh in
          let got : find k (assign_env j (subst names v) env) ≡ some (subst names v) =
            ap (λ t. find t (assign_env j (subst names v) env)) (sym eq)
            ∙ find-assign_env j (subst names v) env in
          rw (gone, same) got
      | inr other ↦ rw other (
          ap (λ b. substituted names b (find k more))
            (find-assign_env_other j k (subst names v) env other))
    ]

-- A variable of a demo's own wins over the recorder's, with its names replaced; every other keeps
-- the recorder's value, or stays unset.
pub find-environ :
    (p : Place) (extra : Env) (k : Text)
    → IsDict extra
    → find k (environ p extra) ≡ substituted p.names (find k (base_env p)) (find k extra)
unfolding environ
find-environ p extra k h = find-with_extra p.names (base_env p) extra k h
