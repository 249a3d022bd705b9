-- ===== src/Core/LoadOrder/Runs.antt =====
-- The load order at concrete inputs.
use bethkit.Prelude.{
  ℕ, none, get_elem?, ◌≢◌, ◌⊎◌, ◌+◌, ◌*◌, ◌^◌, ◌<◌, ◌≡◌, refl, true, arith, String, [], ◌∷◌, some,
}
use Prim.Native.Nat.{bit_or}
use bethkit.Prelude.Action.{done, final}
use bethkit.Prelude.Result.{ok}
use bethkit.Prelude.Dict.{lookup, insert}
use bethkit.Prelude.Keys.{nat_key, string_key}
use bethkit.Core.Types.{PluginKind, GameContext, Game, file_index, object_id, esl_slot, esl_object}
use bethkit.Core.Types.{plugin_kind_from_flags, supports_light, light_flag, flag_localized}
use bethkit.Core.Types.Forms.{form_id_parts}
use bethkit.Core.Types.Kinds.{light_header_kind}
use bethkit.Core.LoadOrder.{LoadOrder, LoadOrderEntry, push, resolve, new}
use bethkit.Core.LoadOrder.Invariant.{IsValid, new-IsValid}
use bethkit.Core.LoadOrder.Pushes.{push-IsValid}
use bethkit.Core.LoadOrder.Resolve.{built, resolve_total, resolve_pushed_light, resolve_stable}

-- Names that are lowercase already.
abbrev keep : String → String
keep name = name

abbrev one_light : LoadOrder
one_light = record {
  entries =
      record { name = "a.esl"; index = 0xFE; kind = PluginKind.light; light_slot = some 0 } ∷ [];
  by_name = ("a.esl", 0) ∷ [];
  regular_index = 0;
  light_slot_counter = 1;
  by_light_slot = (0, 0) ∷ [];
}

abbrev light_entry : LoadOrderEntry
light_entry = record { name = "a.esl"; index = 0xFE; kind = PluginKind.light; light_slot = some 0 }

push_run : push keep "a.esl" PluginKind.light new ≡ done light_entry one_light
unfolding push insert
push_run = refl

push-IsValid_example : IsValid (final (push keep "a.esl" PluginKind.light new))
push-IsValid_example = push-IsValid keep "a.esl" PluginKind.light new new-IsValid

one_light-IsValid : IsValid one_light
unfolding push insert
one_light-IsValid = push-IsValid_example

resolve_run :
    resolve keep one_light 0xFE00_0123 "b.esp" []
    ≡ ok (some (record { plugin_name = "a.esl"; object_id = 0x123 }))
unfolding resolve lookup file_index esl_slot esl_object
resolve_run = refl

resolve_master_run :
    resolve keep new 0x0000_1234 "b.esp" ("m.esm" ∷ [])
    ≡ ok (some (record { plugin_name = "m.esm"; object_id = 0x1234 }))
unfolding resolve file_index object_id
resolve_master_run = refl

abbrev two_pushes : LoadOrder
two_pushes = built keep (("b.esp", PluginKind.plugin) ∷ ("a.esl", PluginKind.light) ∷ [])

resolve_total_example :
    ((file_index 0xFE00_0123 ≡ 0xFE)
      × (((i : ℕ) × (e : LoadOrderEntry) × (get_elem? two_pushes.entries i ≡ some e)
            × (e.light_slot ≡ some (esl_slot 0xFE00_0123))
            × (resolve keep two_pushes 0xFE00_0123 "b.esp" []
                ≡ ok (some (record { plugin_name = e.name; object_id = esl_object 0xFE00_0123 }))))
          ⊎ (((i : ℕ) (e : LoadOrderEntry)
                → get_elem? two_pushes.entries i ≡ some e
                → e.light_slot ≢ some (esl_slot 0xFE00_0123))
              × (resolve keep two_pushes 0xFE00_0123 "b.esp" [] ≡ ok none))))
    ⊎ ((file_index 0xFE00_0123 ≢ 0xFE)
        × (((master : String) × (get_elem? [] (file_index 0xFE00_0123) ≡ some master)
              × (resolve keep two_pushes 0xFE00_0123 "b.esp" []
                  ≡ ok (some (record { plugin_name = master; object_id = object_id 0xFE00_0123 }))))
            ⊎ (((file_index 0xFE00_0123 ≡ 0)
                  × (resolve keep two_pushes 0xFE00_0123 "b.esp" []
                      ≡ ok (
                          some
                            (record { plugin_name = "b.esp"; object_id = object_id 0xFE00_0123 }))))
                ⊎ ((0 < file_index 0xFE00_0123)
                    × (resolve keep two_pushes 0xFE00_0123 "b.esp" [] ≡ ok none)))))
resolve_total_example =
    resolve_total keep (("b.esp", PluginKind.plugin) ∷ ("a.esl", PluginKind.light) ∷ []) 0xFE00_0123
      "b.esp" []

resolve_pushed_light_example :
    (slot : ℕ) × (light_entry.light_slot ≡ some slot)
    × (resolve keep one_light (0xFE * 2 ^ 24 + slot * 2 ^ 12 + 0x123) "b.esp" []
        ≡ ok (some (record { plugin_name = "a.esl"; object_id = 0x123 })))
resolve_pushed_light_example =
    resolve_pushed_light keep new one_light "a.esl" "b.esp" [] light_entry 0x123 new-IsValid
      (omega arith) push_run

resolve_stable_example :
    resolve keep (final (push keep "c.esl" PluginKind.light one_light)) 0xFE00_0123 "b.esp" []
    ≡ ok (some (record { plugin_name = "a.esl"; object_id = 0x123 }))
resolve_stable_example =
    resolve_stable keep one_light "c.esl" "b.esp" PluginKind.light [] 0xFE00_0123
      (record { plugin_name = "a.esl"; object_id = 0x123 }) one_light-IsValid resolve_run

form_id_parts_example :
    (file_index 0x0112_3456 * 2 ^ 24 + object_id 0x0112_3456 ≡ 0x0112_3456)
    × (file_index 0x0112_3456 < 2 ^ 8)
    × (object_id 0x0112_3456 < 2 ^ 24)
    × (file_index 0x0112_3456 ≡ 0xFE
        → 0xFE * 2 ^ 24 + esl_slot 0x0112_3456 * 2 ^ 12 + esl_object 0x0112_3456 ≡ 0x0112_3456)
    × (esl_slot 0x0112_3456 < 2 ^ 12)
    × (esl_object 0x0112_3456 < 2 ^ 12)
form_id_parts_example = form_id_parts 0x0112_3456 (omega arith)

abbrev starfield : GameContext
starfield = record { game = Game.starfield }

starfield_light : supports_light starfield ≡ true
unfolding supports_light
starfield_light = refl

light_header_kind_example :
    (plugin_kind_from_flags starfield (light_flag starfield) ≡ PluginKind.light)
    × (plugin_kind_from_flags starfield (bit_or (light_flag starfield) flag_localized)
        ≡ PluginKind.light)
light_header_kind_example = light_header_kind starfield starfield_light
