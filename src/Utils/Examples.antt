-- ===== src/Utils/Examples.antt =====
-- Strings split and escaped.
use asabru_commons.Base.{codes}
use asabru_commons.Utils.{split}
use asabru_commons.Utils.Split.{IsSplit, split-IsSplit}

split-IsSplit_example : IsSplit (codes ", ") (codes "a, b") (split (codes "a, b") (codes ", "))
split-IsSplit_example = split-IsSplit (codes "a, b") b',' (codes " ")
