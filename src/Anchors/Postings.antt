-- ===== src/Anchors/Postings.antt =====
-- mod.rs: how an anchor comes to be posted, and what its block number says.
use native.Mathlib.Decide.{ℕ_discrete}
use substrate_scaffold.Prelude.{
  ℕ, ◌≡◌, ◌≢◌, ◌⊎◌, inl, inr, refl, sym, ap, subst, ◌∙◌, Option, none, some, arith,
}
use substrate_scaffold.Merkle.{MerkleRoot}
use substrate_scaffold.Result.{ok, Result-cases}
use substrate_scaffold.Storage.{get-insert}
use substrate_scaffold.Anchors.{
  Pallet, State, AnchorKey, Revokable, not_revoked, revoked, Document, create_anchor_call,
  revoke_anchor_call, suspend_leaf_call, dispatch, lookup_anchor, create_anchor,
}
use substrate_scaffold.Anchors.Effects.{dispatch-err, anchor_key_discrete}
use substrate_scaffold.Anchors.Outcomes.{create_anchor-ok_iff}
use substrate_scaffold.Anchors.Lifecycle.{Step, Reach, call, new_block, anchor_at}
use substrate_scaffold.Anchors.Turning.{Reach-Turn}

stored_discrete : Discrete (Option (Revokable ℕ))
stored_discrete = hlevel ℕ_discrete

module _ (p : Pallet) (admins : MerkleRoot p.AccountId p.TreeHashOut)
    (root : MerkleRoot Document p.TreeHashOut) where
  -- The anchor is posted in the block `n`, on the way from `s` to `t`.
  pub record Posting (n : ℕ) (s t : State p) : Type 0 where
    pub before : State p
    pub reached : Reach p s before
    pub origin : p.Origin
    pub who : p.AccountId
    pub signed_by : p.ensure_signed origin ≡ ok who
    pub fresh : lookup_anchor p before admins root ≡ none
    pub in_block : before.block_number ≡ n
    pub later : Reach p (create_anchor p origin admins root before).1 t

  abbrev IsPosted : ℕ → State p → Type 0
  IsPosted n s = lookup_anchor p s admins root ≡ some (not_revoked n)

  -- What a step that makes the anchor be posted is.
  pub record Post (n : ℕ) (s t : State p) : Type 0 where
    pub origin : p.Origin
    pub who : p.AccountId
    pub signed_by : p.ensure_signed origin ≡ ok who
    pub fresh : lookup_anchor p s admins root ≡ none
    pub in_block : s.block_number ≡ n
    pub posts : t ≡ (create_anchor p origin admins root s).1

  number_of :
      (origin : p.Origin) (s : State p) (n : ℕ)
      → (create_anchor p origin admins root s).0 ≡ ok tt
      → IsPosted n (create_anchor p origin admins root s).1
      → s.block_number ≡ n
  unfolding lookup_anchor create_anchor
  number_of origin s n k e =
      ground
        (arith, p.Anchors.get-insert_self s.anchors (admins, root) (not_revoked s.block_number))

  own-Post :
      (origin : p.Origin) (s : State p) (n : ℕ)
      → ¬ IsPosted n s
      → IsPosted n (create_anchor p origin admins root s).1
      → Post n s (create_anchor p origin admins root s).1
  unfolding lookup_anchor dispatch
  own-Post origin s n h e = elim (Result-cases (create_anchor p origin admins root s).0) [
    | inr (x, k) ↦ absurd (
        h (
          sym (
            ap (λ u. anchor_at p u (admins, root))
              (dispatch-err p origin (create_anchor_call admins root) s x k))
          ∙ e))
    | inl (done, k) ↦
        let ((who, signs), empty) = (create_anchor-ok_iff p origin admins root s).0 k in
        record {
          origin = origin;
          who = who;
          signed_by = signs;
          fresh = empty;
          in_block = number_of origin s n k e;
          posts = refl;
        }
  ]

  Step-Post : {s t : State p} (n : ℕ) → Step p s t → ¬ IsPosted n s → IsPosted n t → Post n s t
  unfolding dispatch lookup_anchor
  Step-Post n (new_block s) h e = absurd (h (unfold lookup_anchor in e))
  Step-Post n (call origin (suspend_leaf_call a l proof end) s) h e = absurd (ground arith)
  Step-Post n (call origin (revoke_anchor_call a r proof) s) h e = absurd (
      ground (
        arith,
        get-insert p.Anchors (anchor_key_discrete p.trait) s.anchors (a, r) revoked (admins, root),
      ))
  Step-Post n (call origin (create_anchor_call a r) s) h e =
      elim (anchor_key_discrete p.trait (a, r) (admins, root)) [
        | yes q ↦
            let after = λ (z : AnchorKey p.trait). (create_anchor p origin z.0 z.1 s).1 in
            subst (λ z. IsPosted n (after z) → Post n s (after z)) (sym q) (own-Post origin s n h) e
        | no q ↦ absurd (
            ground (
              arith,
              p.Anchors.get-insert_ne s.anchors (a, r) (admins, root) (not_revoked s.block_number)
                  q,
            ))
      ]

  IsPosted-cases : (n : ℕ) (s : State p) → IsPosted n s ⊎ (¬ IsPosted n s)
  IsPosted-cases n s =
      elim (stored_discrete (lookup_anchor p s admins root) (some (not_revoked n))) [
        | yes e ↦ inl e
        | no e ↦ inr e
      ]

  -- The block number of an anchor says when it was posted: an anchor that is posted with a number at
  -- the end of a history, and was not at its start, was posted on the way in the block of that
  -- number, by a `create_anchor` that someone signed and that found nothing stored.
  pub posted_by :
      {s t : State p} (n : ℕ)
      → Reach p s t
      → lookup_anchor p s admins root ≢ some (not_revoked n)
      → lookup_anchor p t admins root ≡ some (not_revoked n)
      → Posting n s t
  posted_by {t} n r h e =
      let w = Reach-Turn p (IsPosted n) (IsPosted-cases n) r h e in
      let c = Step-Post n w.step w.not_yet w.now in
      record {
        before = w.before;
        reached = w.reached;
        origin = c.origin;
        who = c.who;
        signed_by = c.signed_by;
        fresh = c.fresh;
        in_block = c.in_block;
        later = subst (λ u. Reach p u t) c.posts w.later;
      }
