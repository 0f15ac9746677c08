-- ===== src/Example/Tests.antt =====
-- An example for the rows that are shown: one that was made of a card, and one that is not scanned.
use kms_golang.Base.{[], ◌∷◌, none, some, refl}
use kms_golang.Fixtures.{toy_client, toy_client-IsClient, toy_world, later_world}
use kms_golang.Etl.Encrypt.{stored}
use kms_golang.Etl.Tests.{card, pan_answer, cvv_answer}
use kms_golang.Example.{Row, show_rows}
use kms_golang.Example.Shown.{IsMade, AreLines, show_rows-AreLines}

abbrev stored_row : Row
stored_row = record { id = 1; encrypted_pan = stored pan_answer; encrypted_cvv = stored cvv_answer }

stored_row-IsMade : IsMade toy_client [] stored_row
stored_row-IsMade = (
  card,
  (pan_answer, cvv_answer, (toy_world, toy_world, refl), (toy_world, toy_world, refl), refl, refl),
)

show_rows-AreLines_example :
    AreLines toy_client []
      (stored_row ∷ [])
      (show_rows toy_client [] (some stored_row ∷ none ∷ []) later_world).0
show_rows-AreLines_example =
    show_rows-AreLines toy_client [] toy_client-IsClient (some stored_row ∷ none ∷ []) later_world
      (stored_row-IsMade, tt)
