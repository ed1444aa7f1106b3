-- ===== src/QueryHttp/Samples.antt =====
-- Texts as headers, for the examples.
use kaleidoscope.Prelude.{String, [], ◌∷◌}
use kaleidoscope.QueryHttp.Bearer.{Header}

abbrev pub characters : String → Header
characters String.[] = []
characters (String.◌∷◌ c s) = c ∷ characters s
