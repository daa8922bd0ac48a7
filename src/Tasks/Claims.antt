-- ===== src/Tasks/Claims.antt =====
-- src/features/gateway/server/image-tasks.ts: two runs of `claimDueTasks`.
use apipool_v.Base.{
  ℕ, suc, ◌+◌, ◌<◌, ◌≤◌, String, true, false, Option, none, some, List, [], ◌∷◌, ◌++◌, str_eq,
  find_by, has, ◌≡◌, refl, sym, ap, ◌∙◌, inl, inr, arith, Bool-cases, Option-cases, eq_iff,
  find_by-holds,
}
use mathlib.Core.Path.{subst}
use apipool_v.Tasks.Defs.{
  Task, task_lease_ms, is_task, is_claimable, lease, first_due, claim_row, with_claimed, claim_rows,
  claim_due_tasks, task_batch_size,
}
use apipool_v.Tasks.Meanwhile.{Meanwhile, Meanwhile-AllHeld, Meanwhile-HasUniqueIds}
use apipool_v.Tasks.Leases.{
  HasUniqueIds, AllHeld, AllHeld-sooner, claim_row-AllHeld, held_not_found, claim_row-HasUniqueIds,
  claimed-AllHeld,
}

has-snoc :
    (id : String) (claimed : List Task) (t : Task)
    → has (is_task id) claimed ≡ false
    → is_task id t ≡ false
    → has (is_task id) (claimed ++ t ∷ []) ≡ false
unfolding has
has-snoc id [] t h p = ground arith
has-snoc id (c ∷ claimed) t h p = ground (arith, has-snoc id claimed t (ground arith) p)

lease_id : (k : String) (now : ℕ) (t : Task) → (lease k now t).id ≡ t.id
unfolding lease
lease_id k now t = refl

found_id :
    (id : String) (now : ℕ) (tasks : List Task) (t : Task)
    → find_by (is_claimable id now) tasks ≡ some t
    → t.id ≡ id
found_id id now tasks t found =
    let hit : is_claimable id now t ≡ true = find_by-holds (is_claimable id now) tasks t found in
    (eq_iff t.id id).0 (ground (arith, hit))

row-apart :
    (id j k : String) (until now : ℕ) (tasks claimed : List Task)
    → now < until
    → AllHeld id until tasks
    → has (is_task id) claimed ≡ false
    → has (is_task id) (with_claimed (claim_row k now j tasks).0 claimed) ≡ false
unfolding claim_row
row-apart id j k until now tasks claimed soon held apart =
    elim (Option-cases (find_by (is_claimable j now) tasks)) [
      | inl missing ↦ rw missing apart
      | inr (t, found) ↦ elim (Bool-cases (str_eq j id)) [
        | inl same ↦
            let e : id ≡ j = sym ((eq_iff j id).0 same) in
            let nothing : find_by (is_claimable j now) tasks ≡ none =
              held_not_found j until now tasks soon (subst (λ i. AllHeld i until tasks) e held) in
            let clash : Path (Option Task) none (some t) = sym nothing ∙ found in absurd (cc)
        | inr other ↦
            let theirs : (lease k now t).id ≡ j = lease_id k now t ∙ found_id j now tasks t found in
            rw found
              (has-snoc id claimed (lease k now t) apart (ap (λ i. str_eq i id) theirs ∙ other))
      ]
    ]

claimed-now :
    (id j k : String) (now : ℕ) (tasks claimed : List Task)
    → HasUniqueIds tasks
    → has (is_task id) claimed ≡ false
    → has (is_task id) (with_claimed (claim_row k now j tasks).0 claimed) ≡ true
    → AllHeld id (now + task_lease_ms) (claim_row k now j tasks).1
unfolding claim_row
claimed-now id j k now tasks claimed unique apart has_it =
    elim (Option-cases (find_by (is_claimable j now) tasks)) [
      | inl missing ↦
          let still : has (is_task id) claimed ≡ true = sym (rw missing refl) ∙ has_it in
          absurd (ground (arith, still, apart))
      | inr (t, found) ↦ elim (Bool-cases (is_task id (lease k now t))) [
        | inl same ↦
            let theirs : (lease k now t).id ≡ j = lease_id k now t ∙ found_id j now tasks t found in
            let e : j ≡ id = sym theirs ∙ (eq_iff (lease k now t).id id).0 same in
            subst (λ i. AllHeld i (now + task_lease_ms) (claim_row k now j tasks).1) e
              (claimed-AllHeld j k now tasks t unique found)
        | inr other ↦
            let still : has (is_task id) (claimed ++ lease k now t ∷ []) ≡ true =
              sym (rw found refl) ∙ has_it in
            absurd (ground (arith, still, has-snoc id claimed (lease k now t) apart other))
      ]
    ]

module _ (id k : String) (others : ℕ → List Task → List Task) (until now : ℕ) where
  -- What others write during a run is such a change.
  abbrev AreApart : Type 0
  AreApart = (n : ℕ) (tasks : List Task) → Meanwhile id until tasks (others n tasks)

  claim_rows-HasClaimed :
      (n : ℕ) (candidates claimed tasks : List Task)
      → AreApart
      → until ≤ now + task_lease_ms
      → HasUniqueIds tasks
      → (has (is_task id) claimed ≡ true → AllHeld id until tasks)
      → has (is_task id) (claim_rows k others n now candidates claimed tasks).0 ≡ true
      → AllHeld id until (claim_rows k others n now candidates claimed tasks).1
  unfolding claim_rows
  claim_rows-HasClaimed n [] claimed tasks apart e unique held has_it = held has_it
  claim_rows-HasClaimed n (c ∷ candidates) claimed tasks apart e unique held has_it =
      let unique' = Meanwhile-HasUniqueIds (apart n tasks) unique in
      claim_rows-HasClaimed (suc n) candidates _ _ apart e
        (claim_row-HasUniqueIds c.id k now (others n tasks) unique')
        (λ there. elim (Bool-cases (has (is_task id) claimed)) [
          | inl before ↦
              claim_row-AllHeld id c.id k until now (others n tasks)
                (Meanwhile-AllHeld (apart n tasks) (held before))
          | inr new ↦
              AllHeld-sooner id until (now + task_lease_ms)
                (claim_row k now c.id (others n tasks)).1 e
                (claimed-now id c.id k now (others n tasks) claimed unique' new there)
        ])
        has_it

  claim_rows-apart :
      (n : ℕ) (candidates claimed tasks : List Task)
      → AreApart
      → now < until
      → AllHeld id until tasks
      → has (is_task id) claimed ≡ false
      → has (is_task id) (claim_rows k others n now candidates claimed tasks).0 ≡ false
  unfolding claim_rows
  claim_rows-apart n [] claimed tasks apart soon held none_yet = none_yet
  claim_rows-apart n (c ∷ candidates) claimed tasks apart soon held none_yet =
      let held' = Meanwhile-AllHeld (apart n tasks) held in
      claim_rows-apart (suc n) candidates _ _ apart soon
        (claim_row-AllHeld id c.id k until now (others n tasks) held')
        (row-apart id c.id k until now (others n tasks) claimed soon held' none_yet)

-- A task that a worker has claimed at `now` is not claimed by another run, of whatever worker, that
-- starts before `until`, which is at most 30 seconds later. Before each update of both runs, and
-- from one run to the other, workers may try to claim whatever rows they like, this one included;
-- tasks may be retried, this one too where the 5 seconds after which it is polled at the earliest
-- last up to `until`; it may end in a status that is not active; and rows of other ids may change,
-- come and go. Nothing else writes to the rows of this id. Ids are unique in the table.
pub claim_due_tasks-apart :
    (id h k : String) (others others' : ℕ → List Task → List Task) (now later until : ℕ)
    (tasks between : List Task)
    → HasUniqueIds tasks
    → until ≤ now + task_lease_ms
    → ((n : ℕ) (ts : List Task) → Meanwhile id until ts (others n ts))
    → ((n : ℕ) (ts : List Task) → Meanwhile id until ts (others' n ts))
    → has (is_task id) (claim_due_tasks h others now tasks).0 ≡ true
    → Meanwhile id until (claim_due_tasks h others now tasks).1 between
    → later < until
    → has (is_task id) (claim_due_tasks k others' later between).0 ≡ false
unfolding claim_due_tasks has
claim_due_tasks-apart id h k others others' now later until tasks between unique bound apart apart'
      has_it changed soon =
    claim_rows-apart id k others' until later 0 (first_due task_batch_size later between) [] between
      apart' soon
      (Meanwhile-AllHeld changed (
        claim_rows-HasClaimed id h others until now 0 (first_due task_batch_size now tasks) [] tasks
          apart bound unique (λ there. absurd (cc)) has_it))
      refl
