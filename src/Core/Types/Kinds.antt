-- ===== src/Core/Types/Kinds.antt =====
-- Which kind of plugin the header flags announce.
use Prim.Native.Nat.{bit_or}
use bethkit.Prelude.{◌≡◌, refl, true, arith}
use bethkit.Core.Types.{RecordFlags, flag_localized, PluginKind, Game, GameContext}
use bethkit.Core.Types.{supports_light, supports_medium, supports_update, light_flag}
use bethkit.Core.Types.{plugin_kind_from_flags}

-- A game never reports a kind that it does not support.
pub plugin_kind_supported :
    (c : GameContext) (raw : RecordFlags)
    → (plugin_kind_from_flags c raw ≡ PluginKind.medium → supports_medium c ≡ true)
      × (plugin_kind_from_flags c raw ≡ PluginKind.update → supports_update c ≡ true)
      × (plugin_kind_from_flags c raw ≡ PluginKind.light → supports_light c ≡ true)
unfolding plugin_kind_from_flags
plugin_kind_supported c raw = (λ e. ground arith, λ e. ground arith, λ e. ground arith)

light_kind :
    (g : Game)
    → supports_light (record { game = g }) ≡ true
    → (plugin_kind_from_flags (record { game = g }) (light_flag (record { game = g }))
        ≡ PluginKind.light)
      × (plugin_kind_from_flags
            (record { game = g })
            (bit_or (light_flag (record { game = g })) flag_localized)
          ≡ PluginKind.light)
unfolding plugin_kind_from_flags
light_kind Game.skyrim_se h = (refl, refl)
light_kind _ h = ground arith

-- In every game with light plugins the light flag alone, and with the localised flag, reads as light:
-- no game tests it as the medium or update flag first.
pub light_header_kind :
    (c : GameContext)
    → supports_light c ≡ true
    → (plugin_kind_from_flags c (light_flag c) ≡ PluginKind.light)
      × (plugin_kind_from_flags c (bit_or (light_flag c) flag_localized) ≡ PluginKind.light)
light_header_kind c h = light_kind c.game h
