-- ===== src/Enums.antt =====
-- The string enums of accounts.go, categories.go, transactions.go and scheduled.go: their
-- constants, and the methods `Valid`.
use ynab_go.Base.{Bool, List, [], ◌∷◌, Bytes, codes}
use ynab_go.Contract.{contains}

abbrev pub account_types : List Bytes
account_types =
    codes "checking"
    ∷ codes "savings"
    ∷ codes "cash"
    ∷ codes "creditCard"
    ∷ codes "lineOfCredit"
    ∷ codes "otherAsset"
    ∷ codes "otherLiability"
    ∷ codes "mortgage"
    ∷ codes "autoLoan"
    ∷ codes "studentLoan"
    ∷ codes "personalLoan"
    ∷ codes "medicalDebt"
    ∷ codes "otherDebt"
    ∷ []

-- `AccountType.Valid`.
unfoldable pub is_account_type : Bytes → Bool
unfolding contains
is_account_type s = contains account_types s

abbrev pub account_spec_types : List Bytes
account_spec_types =
    codes "checking"
    ∷ codes "savings"
    ∷ codes "cash"
    ∷ codes "creditCard"
    ∷ codes "otherAsset"
    ∷ codes "otherLiability"
    ∷ []

-- `AccountSpecType.Valid`.
unfoldable pub is_account_spec_type : Bytes → Bool
unfolding contains
is_account_spec_type s = contains account_spec_types s

abbrev pub goal_types : List Bytes
goal_types = codes "TB" ∷ codes "TBD" ∷ codes "MF" ∷ codes "NEED" ∷ codes "DEBT" ∷ []

-- `GoalType.Valid`.
unfoldable pub is_goal_type : Bytes → Bool
unfolding contains
is_goal_type s = contains goal_types s

abbrev pub goal_frequencies : List Bytes
goal_frequencies = codes "monthly" ∷ codes "weekly" ∷ codes "yearly" ∷ []

-- `GoalFrequency.Valid`.
unfoldable pub is_goal_frequency : Bytes → Bool
unfolding contains
is_goal_frequency s = contains goal_frequencies s

abbrev pub cleared_statuses : List Bytes
cleared_statuses = codes "uncleared" ∷ codes "cleared" ∷ codes "reconciled" ∷ []

-- `ClearedStatus.Valid`.
unfoldable pub is_cleared_status : Bytes → Bool
unfolding contains
is_cleared_status s = contains cleared_statuses s

abbrev pub flag_colors : List Bytes
flag_colors =
    []
    ∷ codes "red"
    ∷ codes "orange"
    ∷ codes "yellow"
    ∷ codes "green"
    ∷ codes "blue"
    ∷ codes "purple"
    ∷ []

-- `FlagColor.Valid`.
unfoldable pub is_flag_color : Bytes → Bool
unfolding contains
is_flag_color s = contains flag_colors s

abbrev pub transaction_types : List Bytes
transaction_types = codes "uncategorized" ∷ codes "unapproved" ∷ []

-- `TransactionType.Valid`.
unfoldable pub is_transaction_type : Bytes → Bool
unfolding contains
is_transaction_type s = contains transaction_types s

abbrev pub hybrid_types : List Bytes
hybrid_types = codes "transaction" ∷ codes "subtransaction" ∷ []

-- `HybridType.Valid`.
unfoldable pub is_hybrid_type : Bytes → Bool
unfolding contains
is_hybrid_type s = contains hybrid_types s

abbrev pub debt_transaction_types : List Bytes
debt_transaction_types =
    codes "payment"
    ∷ codes "refund"
    ∷ codes "fee"
    ∷ codes "interest"
    ∷ codes "escrow"
    ∷ codes "balanceAdjustment"
    ∷ codes "credit"
    ∷ codes "charge"
    ∷ []

-- `DebtTransactionType.Valid`.
unfoldable pub is_debt_transaction_type : Bytes → Bool
unfolding contains
is_debt_transaction_type s = contains debt_transaction_types s

abbrev pub frequencies : List Bytes
frequencies =
    codes "never"
    ∷ codes "daily"
    ∷ codes "weekly"
    ∷ codes "everyOtherWeek"
    ∷ codes "twiceAMonth"
    ∷ codes "every4Weeks"
    ∷ codes "monthly"
    ∷ codes "everyOtherMonth"
    ∷ codes "every3Months"
    ∷ codes "every4Months"
    ∷ codes "twiceAYear"
    ∷ codes "yearly"
    ∷ codes "everyOtherYear"
    ∷ []

-- `Frequency.Valid`.
unfoldable pub is_frequency : Bytes → Bool
unfolding contains
is_frequency s = contains frequencies s
