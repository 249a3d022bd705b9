-- ===== src/Core/Types/Forms.antt =====
-- A FormID is its file index and object id; in the light range it is its slot and object.
use bethkit.Prelude.{ℕ, ◌+◌, ◌*◌, ◌^◌, ◌<◌, ◌≡◌, arith}
use bethkit.Core.Types.{FormId, file_index, object_id, esl_slot, esl_object}

-- A 32-bit FormID is rebuilt from its file index and object id, which are in range; with the light
-- sentinel 0xFE as its file index it is rebuilt from its slot and light object, in range too.
pub form_id_parts :
    (raw : FormId)
    → raw < 2 ^ 32
    → (file_index raw * 2 ^ 24 + object_id raw ≡ raw)
      × (file_index raw < 2 ^ 8)
      × (object_id raw < 2 ^ 24)
      × (file_index raw ≡ 0xFE → 0xFE * 2 ^ 24 + esl_slot raw * 2 ^ 12 + esl_object raw ≡ raw)
      × (esl_slot raw < 2 ^ 12)
      × (esl_object raw < 2 ^ 12)
unfolding file_index object_id esl_slot esl_object
form_id_parts raw h =
    (omega arith, omega arith, omega arith, λ e. omega arith, omega arith, omega arith)

-- Packing a light slot and object under the sentinel is undone by the accessors.
pub esl_round_trip :
    (slot object : ℕ)
    → slot < 2 ^ 12
    → object < 2 ^ 12
    → let raw = 0xFE * 2 ^ 24 + slot * 2 ^ 12 + object in
      (file_index raw ≡ 0xFE) × (esl_slot raw ≡ slot) × (esl_object raw ≡ object)
unfolding file_index esl_slot esl_object
esl_round_trip slot object h k = (omega arith, omega arith, omega arith)
