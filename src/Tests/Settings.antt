-- ===== src/Tests/Settings.antt =====
-- A concrete class of limits for paf/conf.py, and what the theorem says of it.
use paf.Prelude.{true, [], ◌∷◌}
use paf.Prelude.Int.{pos}
use paf.Proto.Props.{int, bool, Members, no_members, member}
use paf.Conf.{no_limits, resource_class_copy}
use paf.Conf.Limit.{Copies, resource_class_copy-Copies}

abbrev few_clients : Members
few_clients =
    member (b'c' ∷ b'l' ∷ b'i' ∷ b'e' ∷ b'n' ∷ b't' ∷ b's' ∷ []) (int (pos 4))
      (member (b's' ∷ b'e' ∷ b'r' ∷ b'v' ∷ b'i' ∷ b'c' ∷ b'e' ∷ b's' ∷ []) (bool true) no_members)

resource_class_copy-Copies_example :
    Copies few_clients no_limits (resource_class_copy few_clients no_limits)
resource_class_copy-Copies_example = resource_class_copy-Copies few_clients no_limits
