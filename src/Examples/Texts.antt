-- ===== src/Examples/Texts.antt =====
-- A search for values by a short text, on the tree of the examples.
use file_tag_system.Prelude.{ℕ, ◌<◌, Bool, false, true, none, ◌==◌, ◌≡◌, In, length, refl, arith}
use file_tag_system.Text.{Text, codes}
use file_tag_system.Db.{Db}
use file_tag_system.Search.Texts.{search_values, value_limit, of_type}
use file_tag_system.Search.Texts.Named.{Named, search_values-Named}
use file_tag_system.Examples.{planted, taiwan}

abbrev blank : ℕ → Bool
blank c = c == b' '

abbrev no_index : Db → Text → ℕ → Bool
no_index db query id = false

search_values-Named_example :
    (In taiwan (search_values blank no_index planted (codes "AI") none 50)
      → In taiwan planted.field_values
        × (of_type none taiwan ≡ true)
        × Named planted (codes "AI") taiwan)
    × (length (search_values blank no_index planted (codes "AI") none 50) < value_limit 50
        → In taiwan planted.field_values
        → of_type none taiwan ≡ true
        → Named planted (codes "AI") taiwan
        → In taiwan (search_values blank no_index planted (codes "AI") none 50))
search_values-Named_example =
    search_values-Named blank no_index planted (codes "AI") none 50 taiwan refl (omega arith)
