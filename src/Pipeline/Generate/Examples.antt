-- ===== src/Pipeline/Generate/Examples.antt =====
-- Three stages that make two tokens, with three and with six micro-batches.
use rea_lhf.Base.{[], arith, refl, ℕ, ◌*◌, ◌+◌, ◌<◌, ◌↔◌, ◌∷◌, ◌≡◌}
use rea_lhf.Base.Int.{pos}
use rea_lhf.Pipeline.Generate.{
  GenerateSchedule, forward_pass, period, recv_activation, recv_next_tokens, send_activation,
  send_next_tokens,
}
use rea_lhf.Pipeline.Generate.Parts.{batches, cmds_at, next_stage_of, works}
use rea_lhf.Pipeline.Generate.Passes.{generate_passes}
use rea_lhf.Pipeline.Generate.Tokens.{
  first_stage_of, generate_pairing, tokens_pairing, tokens_unmatched,
}

abbrev second : GenerateSchedule
second = record {
  base = record { micro_batches = 3; stages = 3; stage_id = 1 };
  max_new_tokens = 2;
}

abbrev last : ℕ → GenerateSchedule
last n = record {
  base = record { micro_batches = n; stages = 3; stage_id = 2 };
  max_new_tokens = 2;
}

generate_pairing_example :
    batches send_activation (cmds_at second 4)
    ≡ batches recv_activation (cmds_at (next_stage_of second) 4)
generate_pairing_example = generate_pairing second 4 (omega arith)

tokens_pairing_example :
    batches send_next_tokens (cmds_at (last 3) 5)
    ≡ batches recv_next_tokens (cmds_at (first_stage_of (last 3)) 5)
tokens_pairing_example = tokens_pairing (last 3) 5 refl (omega arith)

tokens_unmatched_example :
    (batches send_next_tokens (cmds_at (last 6) 15) ≡ [])
    × (batches recv_next_tokens (cmds_at (first_stage_of (last 6)) 15) ≡ pos 0 ∷ [])
tokens_unmatched_example = tokens_unmatched (last 6) refl (omega arith)

generate_passes_example :
    (works forward_pass (cmds_at second 6) ≡ (pos 2, pos 1) ∷ [])
    ↔ ((k : ℕ) × (pos 1 ≡ pos k) × (k < 2) × (6 ≡ k * period second + 2 + 1))
generate_passes_example = generate_passes second 6 2 (pos 1) (omega arith) (omega arith)
