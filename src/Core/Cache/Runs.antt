-- ===== src/Core/Cache/Runs.antt =====
-- The cache with one plugin.
use bethkit.Prelude.{String, ℕ, List}

-- Names that are in lower case already, and plugins without masters.
abbrev as_is : String → String
as_is name = name

abbrev no_text : List ℕ → String
no_text bytes = ""
