-- ===== src/Server/Start/Migrations.antt =====
-- When the task of the migrations comes to its end.
use trust_server.Common.{
  ℕ, zero, suc, ◌+◌, ◌*◌, ◌%◌, ◌^◌, ◌<◌, ◌≡◌, ◌∙◌, refl, none, some, [], ◌∷◌, arith, length,
  length-append,
}
use trust_server.Exec.{Result, ok, err}
use trust_server.Server.Start.{Task, failed_try, not_tried, migrations}

abbrev pub after_failures : ℕ → Task → Task
after_failures zero task = task
after_failures (suc n) task = after_failures n (failed_try task)

module _ {S E : Type 0} (migrate : S → Result E (Unit {0}) × S) where
  abbrev pub after_tries : ℕ → S → S
  after_tries zero s = s
  after_tries (suc n) s = after_tries n (migrate s).1

  migrations-failing :
      (n : ℕ) (task : Task) (s : S)
      → ((k : ℕ) → k < n → (e : E) × ((migrate (after_tries k s)).0 ≡ err e))
      → (fuel : ℕ)
      → migrations migrate (n + fuel) task s
        ≡ migrations migrate fuel (after_failures n task) (after_tries n s)
  unfolding migrations
  migrations-failing zero task s h fuel =
      let e : ◌≡◌ {A = ℕ} (0 + fuel) fuel = omega arith in rw e refl
  migrations-failing (suc n) task s h fuel =
      let (e, f) = h 0 (omega arith) in
      let one_more : ◌≡◌ {A = ℕ} (suc n + fuel) (suc (n + fuel)) = omega arith in
      rw (one_more, migrations, f)
        (migrations-failing n (failed_try task) (migrate s).1 (λ k l. h (suc k) (omega arith)) fuel)

attempt-after_failures :
    (n : ℕ) (task : Task)
    → task.attempt < 2 ^ 32
    → (after_failures n task).attempt ≡ (task.attempt + n) % 2 ^ 32
attempt-after_failures zero task l = omega arith
attempt-after_failures (suc n) task l =
    attempt-after_failures n (failed_try task) (omega arith) ∙ omega arith

slept-after_failures : (n : ℕ) (task : Task) → (after_failures n task).slept ≡ task.slept + 3 * n
slept-after_failures zero task = omega arith
slept-after_failures (suc n) task = slept-after_failures n (failed_try task) ∙ omega arith

length-warned :
    (n : ℕ) (task : Task) → length (after_failures n task).warned ≡ length task.warned + n
length-warned zero task = omega arith
length-warned (suc n) task =
    length-warned n (failed_try task)
    ∙ ground (arith, length-append task.warned ((task.attempt + 1) % 2 ^ 32 ∷ []))

-- If the migrations fail at the first n tries and are applied by the next, the task ends at that
-- try and not before, in the state that it leaves: it has slept three seconds after each failure
-- and has warned n times, and its counter is n up to the wrap-around of a u32.
pub migrations_end :
    {S E : Type 0} (migrate : S → Result E (Unit {0}) × S) (n : ℕ) (s : S)
    → ((k : ℕ) → k < n → (e : E) × ((migrate (after_tries migrate k s)).0 ≡ err e))
    → (migrate (after_tries migrate n s)).0 ≡ ok tt
    → (migrations migrate n not_tried s ≡ none)
      × (task : Task) × (migrations migrate (n + 1) not_tried s
          ≡ some (task, (migrate (after_tries migrate n s)).1))
      × (task.slept ≡ 3 * n)
      × (length task.warned ≡ n)
      × (task.attempt ≡ n % 2 ^ 32)
unfolding migrations
migrations_end migrate n s fails ends = (
  (let e : ◌≡◌ {A = ℕ} (n + 0) n = omega arith in
      rw e at (migrations-failing migrate n not_tried s fails 0)),
  after_failures n not_tried,
  rw (migrations-failing migrate n not_tried s fails 1, migrations, ends) refl,
  slept-after_failures n not_tried ∙ omega arith,
  length-warned n not_tried ∙ omega arith,
  attempt-after_failures n not_tried (omega arith) ∙ omega arith,
)
