-- ===== src/Transactions/Processed.antt =====
-- crates/protocol/onx-transactions/src/processed.rs: a set of hashes.
use the_open_network_x.Prelude.{
  ◌≡◌, ◌≢◌, refl, Bool, [], Result, ok, err, if◌then◌else◌, arith, Option-cases, inl, inr,
}
use the_open_network_x.Prelude.Ord.{bytes_ord}
use the_open_network_x.Prelude.BTreeMap.{
  BTreeMap, lookup, insert, remove, contains_key, lookup-insert_self, lookup-insert_ne,
  lookup-remove_self,
}
use the_open_network_x.Primitives.Error.{Bytes}
use the_open_network_x.Primitives.Hash.{Crypto}
use the_open_network_x.DataStructures.Message.{Message, message_hash}
use the_open_network_x.Transactions.Error.{TransactionsError, duplicate_delivery}

abbrev pub ProcessedMessageTracker : Type 0
ProcessedMessageTracker = BTreeMap Bytes (Unit {0})

abbrev pub empty_tracker : ProcessedMessageTracker
empty_tracker = []

-- `insert` tells whether the hash is new; a set that has it stays as it is.
unfoldable pub admit :
    ProcessedMessageTracker → Bytes → Result TransactionsError ProcessedMessageTracker
admit self hash =
    if contains_key hash self then err duplicate_delivery else ok (insert hash tt self)

unfoldable pub admit_message :
    Crypto → ProcessedMessageTracker → Message → Result TransactionsError ProcessedMessageTracker
admit_message crypto self message = admit self (message_hash crypto message)

unfoldable pub has_hash : ProcessedMessageTracker → Bytes → Bool
has_hash self hash = contains_key hash self

unfoldable pub prune : ProcessedMessageTracker → Bytes → ProcessedMessageTracker
prune self hash = remove hash self

-- A message that was admitted is refused again, other hashes keep their status, and once its hash is
-- pruned it is admitted anew.
pub admit_once :
    (self : ProcessedMessageTracker) (hash other : Bytes) {admitted : ProcessedMessageTracker}
    → admit self hash ≡ ok admitted
    → other ≢ hash
    → (admit admitted hash ≡ err duplicate_delivery)
      × (has_hash admitted other ≡ has_hash self other)
      × ((again : ProcessedMessageTracker) × (admit (prune admitted hash) hash ≡ ok again))
unfolding admit has_hash prune contains_key
admit_once self hash other {admitted} h ne = elim (Option-cases (lookup hash self)) [
  | inl unseen ↦
      let admitted_is : insert hash tt self ≡ admitted = ground arith in
      rw (← admitted_is) (
        rw (contains_key, lookup-insert_self hash (tt {0}) self) refl,
        rw (contains_key, lookup-insert_ne other hash (tt {0}) self ne) refl,
        (
          insert hash tt (remove hash (insert hash tt self)),
          rw (contains_key, lookup-remove_self hash (insert hash (tt {0}) self)) refl,
        ),
      )
  | inr (u, seen) ↦ absurd (ground arith)
]
