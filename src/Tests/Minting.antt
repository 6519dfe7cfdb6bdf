-- ===== src/Tests/Minting.antt =====
-- Two threads that mint ids at once, and the seed from the log tails.
use aver.Prelude.{arith, ℕ, none, some, [], ◌∷◌, ◌≡◌, refl, ◌+◌}
use aver.Log.{LogRecord, promote_candidate_claim, retire_claim}
use aver.Ids.{
  IdGen, Minter, Steps, start, more, loads, exchanges, next_id, seeded, max_id_in_log_tails,
  elapsed_at,
}
use aver.Ids.Minting.{Ordered, mint-Ordered}

abbrev hash : ℕ → ℕ
hash n = n + 9

abbrev at_zero : Minter
at_zero = record { elapsed = 1; current = 50 }

abbrev raced : IdGen
raced = record { last = 4155; minters = at_zero ∷ []; minted = 4155 ∷ [] }

abbrev loaded : IdGen
loaded = record { last = 50; minters = at_zero ∷ []; minted = [] }

abbrev both : IdGen
both = record { last = 50; minters = at_zero ∷ at_zero ∷ []; minted = [] }

-- Two threads load, and one is given its id.
race : Steps hash 1704067200002 (seeded 50) raced
unfolding seeded elapsed_at next_id
race =
    more {t = both}
      (more {t = loaded} (more start (loads 1704067200001 50 (omega arith) refl))
        (loads 1704067200001 50 (omega arith) refl))
      (exchanges (at_zero ∷ []) [] at_zero refl refl refl)

mint-Ordered_example : Ordered 50 raced
mint-Ordered_example = mint-Ordered hash 1704067200002 50 raced race (omega arith, omega arith)

abbrev promotion : LogRecord
promotion = promote_candidate_claim 1 50 40 none

-- A last record that carries no id gives no seed, though earlier records of the series have ids.
no_seed : max_id_in_log_tails (some (retire_claim 1 7 "done") ∷ none ∷ none ∷ []) ≡ 0
unfolding max_id_in_log_tails
no_seed = refl
