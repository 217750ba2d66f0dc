-- ===== src/Client/Qt.antt =====
-- What the window uses of Qt: functions on texts and lists of texts, and what the code relies
-- on of them.
use s2_decentralised_storage.Prelude.{ℕ, ◌≡◌, ◌≢◌, Bool, Option, List, Bytes, ◌∷◌, ◌++◌, codes, All}
use s2_decentralised_storage.Tracker.{is_in}
use s2_decentralised_storage.Tracker.Invariant.{NoDup}
use s2_decentralised_storage.Client.Peers.Agreement.{join}

-- `QString::trimmed`, `split(',', Qt::SkipEmptyParts)`, `QStringList::join(',')`, `contains`,
-- `removeDuplicates`, `arg`, which puts a text in the place of the lowest numbered marker such as %1,
-- and `toULongLong`, which is none where it fails.
pub record Qt : Type 0 where
  pub trimmed : Bytes → Bytes
  pub split_commas : Bytes → List Bytes
  pub join_commas : List Bytes → Bytes
  pub contains : List Bytes → Bytes → Bool
  pub remove_duplicates : List Bytes → List Bytes
  pub arg : Bytes → Bytes → Bytes
  pub to_u64 : Bytes → Option ℕ

-- The documented behaviour of the functions on lists, and of `arg`: the marker %1 of `%1:%2` is the
-- lowest, and %2 is the only one left if the text that was put there has no percent sign.
pub record IsQt (qt : Qt) : Type 0 where
  pub contains_lem : (l : List Bytes) (e : Bytes) → qt.contains l e ≡ is_in e l
  pub once : (l : List Bytes) → NoDup (qt.remove_duplicates l)
  pub same : (l : List Bytes) (e : Bytes) → is_in e (qt.remove_duplicates l) ≡ is_in e l
  pub arg_first : (a : Bytes) → qt.arg (codes "%1:%2") a ≡ a ++ codes ":%2"
  pub arg_last : (a b : Bytes) → All (λ c. c ≢ b'%') a → qt.arg (a ++ codes ":%2") b ≡ a ++ b':' ∷ b
  pub joined : (l : List Bytes) → qt.join_commas l ≡ join l
