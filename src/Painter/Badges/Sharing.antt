-- ===== src/Painter/Badges/Sharing.antt =====
-- When the badge of a shared pane is drawn, and what a click on it does.
use hexe.Prelude.{
  ◌<◌, ◌≡◌, ◌≢◌, ◌↔◌, ◌⊎◌, inl, inr, Bool-cases, refl, sym, ap, append-nil, ltb→lt, true, [], ◌∷◌,
  Text, codes, length, ltb, arith,
}
use hexe.Painter.{Region, Output, Request, drawn, text_or_empty, number_or, flag, values_of}
use hexe.Painter.Badges.{view_share, badge, share_actions, nothing_drawn, off_text, live_text}

-- Somebody has to be told: sharing is switched off for the pane, or it is watched.
abbrev pub Notable : Request → Type 0
Notable req =
    (flag (values_of req).share_blocked ≡ true) ⊎ (0 < number_or 0 (values_of req).observers)

-- A badge is drawn, for this pane.
record IsBadge (req : Request) : Type 0 where
  text : Text
  style : Text
  is : view_share req ≡ badge (text_or_empty (values_of req).pane_uuid) text style

view_share_cases :
    (req : Request)
    → (Notable req × IsBadge req) ⊎ ((¬ Notable req) × (view_share req ≡ nothing_drawn))
unfolding view_share
view_share_cases req = elim (Bool-cases (flag (values_of req).share_blocked)) [
  | inl off ↦ inl (inl off, record { text = off_text; style = codes "dim fg:7"; is = rw off })
  | inr on ↦ elim (Bool-cases (ltb 0 (number_or 0 (values_of req).observers))) [
    | inl some_watch ↦ inl (
      inr (ltb→lt _ _ some_watch),
      record {
        text = live_text (number_or 0 (values_of req).observers);
        style = codes "bold fg:1";
        is = rw on (rw some_watch);
      },
    )
    | inr none_watch ↦ inr (
      λ n. elim n [ inl off ↦ cc (on, off) | inr some_watch ↦ ground arith ],
      rw on (rw none_watch),
    )
  ]
]

badge-runs : (uuid text style : Text) → (badge uuid text style).runs ≢ []
unfolding badge
badge-runs uuid text style = λ e. cc e

-- The badge is drawn exactly when sharing is switched off for the pane or somebody watches it.
view_share_drawn : (req : Request) → ((view_share req).runs ≢ []) ↔ Notable req
view_share_drawn req = elim (view_share_cases req) [
  | inl (n, b) ↦ (λ _. n, λ _ e. badge-runs _ _ _ (rw b.is at e))
  | inr (quiet, nothing) ↦
      (λ ne. absurd (ne (ap (λ (o : Output). o.runs) nothing)), λ n. absurd (quiet n))
]

badge-region :
    (uuid text style : Text)
    → uuid ≢ []
    → (r : Region) × ((badge uuid text style).regions ≡ r ∷ [])
      × (r.x ≡ 0)
      × (r.width ≡ length (drawn (badge uuid text style).runs))
      × (r.actions ≡ share_actions uuid)
unfolding badge drawn share_actions
badge-region [] text style ne = absurd (ne refl)
badge-region (c ∷ s) text style ne = (_, refl, refl, ap length (sym (append-nil text)), refl)

-- A drawn badge whose pane is known is one region, from its first column to its last, and a
-- click on it stops or starts the sharing of that pane.
view_share-region :
    (req : Request)
    → Notable req
    → text_or_empty (values_of req).pane_uuid ≢ []
    → (r : Region) × ((view_share req).regions ≡ r ∷ [])
      × (r.x ≡ 0)
      × (r.width ≡ length (drawn (view_share req).runs))
      × (r.actions ≡ share_actions (text_or_empty (values_of req).pane_uuid))
view_share-region req n known = elim (view_share_cases req) [
  | inl (_, b) ↦ rw b.is (badge-region _ b.text b.style known)
  | inr (quiet, _) ↦ absurd (quiet n)
]
