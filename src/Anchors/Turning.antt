-- ===== src/Anchors/Turning.antt =====
-- mod.rs: the step of a history at which something comes to hold.
use substrate_scaffold.Prelude.{◌⊎◌, inl, inr}
use substrate_scaffold.Anchors.{Pallet, State}
use substrate_scaffold.Anchors.Lifecycle.{Step, Reach, here, next}

module _ (p : Pallet) (Holds : State p → Type 0) where
  pub record Turn (s t : State p) : Type 0 where
    pub before : State p
    pub after : State p
    pub reached : Reach p s before
    pub step : Step p before after
    pub not_yet : ¬ Holds before
    pub now : Holds after
    pub later : Reach p after t

  -- What does not hold at the start of a history and holds at its end comes to hold at some step.
  pub Reach-Turn :
      {s t : State p}
      → ((u : State p) → Holds u ⊎ (¬ Holds u))
      → Reach p s t
      → ¬ Holds s
      → Holds t
      → Turn s t
  Reach-Turn dec here h e = absurd (h e)
  Reach-Turn dec (next {t} {u} r st) h e = elim (dec t) [
    | inl earlier ↦
        let w = Reach-Turn dec r h earlier in
        record {
          before = w.before;
          after = w.after;
          reached = w.reached;
          step = w.step;
          not_yet = w.not_yet;
          now = w.now;
          later = next w.later st;
        }
    | inr late ↦ record {
      before = t;
      after = u;
      reached = r;
      step = st;
      not_yet = late;
      now = e;
      later = here;
    }
  ]
