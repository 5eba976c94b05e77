-- ===== src/Struct/Tests.antt =====
-- Concrete runs of the linked lists.

use loos_lab.Base.{refl, [], ◌∷◌, ◌++◌, ◌==◌, if◌then◌else◌}
use loos_lab.Struct.ListHead.{Links, list_del}
use loos_lab.Struct.ListHead.Ring.{Ring}
use loos_lab.Struct.ListHead.Ends.{list_del-Ring}

-- The ring at 10 holds 20 and 30.
abbrev links : Links
links = record {
  next = λ a. if a == 10 then 20 else if a == 20 then 30 else 10;
  prev = λ a. if a == 10 then 30 else if a == 20 then 10 else 20;
}

links-Ring : Ring links 10 (20 ∷ 30 ∷ [])
links-Ring = ((refl, refl, (refl, refl, (refl, refl))), (refl, (refl, (refl, tt))))

-- The ring at 10 is empty.
abbrev alone : Links
alone = record { next = λ a. a; prev = λ a. a }

list_del-Ring_example :
    Ring (list_del links 30) 10 ((20 ∷ []) ++ []) × Ring (list_del links 30) 30 []
list_del-Ring_example = list_del-Ring links 10 (20 ∷ []) 30 [] links-Ring
