-- ===== src/Wallet/Balance.antt =====
-- What an entry of the ledger does to the balances: the invariant between accounts and ledger.
use apipool_v.Base.{
  Bool, ℕ, String, true, false, ◌&&◌, some, List, [], ◌∷◌, ok, if◌then◌else◌, str_eq, find_by,
  update_where, has, ◌≡◌, refl, inl, inr, arith, eq_iff, Option-cases,
}
use apipool_v.Base.Int.{ℤ, pos, ◌+ℤ◌, +ℤ_comm}
use apipool_v.Wallet.Defs.{Account, Entry, Wallet, is_refused, of_user}
use apipool_v.Wallet.Ledger.{
  NewEntry, sign_ok, safe_amount, lacks_operator, ensure_wallet_account, append_ledger_entry,
  post_entry, credit, entry_row,
}

-- The balance of a user's account; without an account it is 0.
unfoldable pub balance_of : String → List Account → ℤ
balance_of u [] = pos 0
balance_of u (a ∷ rows) = if of_user u a then a.balance_micro_usd else balance_of u rows

-- The sum of a user's entries.
unfoldable pub sum_for : String → List Entry → ℤ
sum_for u [] = pos 0
sum_for u (e ∷ es) =
    if str_eq e.user_id u then e.signed_amount_micro_usd +ℤ sum_for u es else sum_for u es

-- Every entry carries the balance that the user had when it was written.
abbrev pub HasRunningBalances : List Entry → Type 0
HasRunningBalances [] = Unit
HasRunningBalances (e ∷ es) =
    (e.balance_after_micro_usd ≡ sum_for e.user_id (e ∷ es)) × HasRunningBalances es

-- No two rows clash on the primary key or on a unique index, and no amount is 0.
abbrev pub HasUniqueKeys : List Entry → Type 0
HasUniqueKeys [] = Unit
HasUniqueKeys (e ∷ es) = (is_refused e es ≡ false) × HasUniqueKeys es

pub record IsConsistent (w : Wallet) : Type 0 where
  pub balanced : (u : String) → balance_of u w.accounts ≡ sum_for u w.ledger
  pub running : HasRunningBalances w.ledger
  pub unique : HasUniqueKeys w.ledger

balance_of-credit :
    (now : ℕ) (amount : ℤ) (u v : String) (rows : List Account)
    → balance_of v (update_where (of_user u) (credit now amount) rows) ≡ (
        if has (of_user u) rows && str_eq u v
        then balance_of v rows +ℤ amount
        else balance_of v rows)
unfolding balance_of update_where has credit
balance_of-credit now amount u v [] = refl
balance_of-credit now amount u v (a ∷ rows) = ground (
  arith,
  balance_of-credit now amount u v rows,
  eq_iff a.user_id u,
  eq_iff a.user_id v,
  eq_iff u v,
)

find_by-balance_of :
    (u : String) (rows : List Account) (a : Account)
    → find_by (of_user u) rows ≡ some a
    → (balance_of u rows ≡ a.balance_micro_usd) × (has (of_user u) rows ≡ true)
unfolding balance_of find_by has
find_by-balance_of u [] a e = cc
find_by-balance_of u (b ∷ rows) a e = ground (arith, find_by-balance_of u rows a)

balance_of_missing :
    (u : String) (rows : List Account) → has (of_user u) rows ≡ false → balance_of u rows ≡ pos 0
unfolding balance_of has
balance_of_missing u [] e = refl
balance_of_missing u (b ∷ rows) e = ground (arith, balance_of_missing u rows)

-- Opening an account changes no balance.
pub balance_of-ensure :
    (now : ℕ) (u v : String) (w : Wallet)
    → balance_of v (ensure_wallet_account now u w).accounts ≡ balance_of v w.accounts
unfolding ensure_wallet_account balance_of
balance_of-ensure now u v w = ground (arith, balance_of_missing u w.accounts, eq_iff u v)

pub ensure-ledger :
    (now : ℕ) (u : String) (w : Wallet) → (ensure_wallet_account now u w).ledger ≡ w.ledger
unfolding ensure_wallet_account
ensure-ledger now u w = ground arith

pub ensure-IsConsistent :
    (now : ℕ) (u : String) (w : Wallet)
    → IsConsistent w
    → IsConsistent (ensure_wallet_account now u w)
ensure-IsConsistent now u w c = record {
  balanced = λ v. rw (ensure-ledger, balance_of-ensure now u v w) (c.balanced v);
  running = rw ensure-ledger c.running;
  unique = rw ensure-ledger c.unique;
}

-- What has happened when an entry was appended.
pub record Posted (e : NewEntry) (delta : ℤ) (w w' : Wallet) (id : String) (balance : ℤ)
    : Type 0 where
  pub row : Entry
  pub ledger : w'.ledger ≡ row ∷ w.ledger
  pub accepted : is_refused row w.ledger ≡ false
  pub row_id : row.id ≡ id
  pub user : row.user_id ≡ e.user_id
  pub kind : row.entry_type ≡ e.entry_type
  pub amount : row.signed_amount_micro_usd ≡ delta
  pub after : row.balance_after_micro_usd ≡ balance
  pub key : row.idempotency_key ≡ e.idempotency_key
  pub charged : row.request_ledger_id ≡ e.request_ledger_id
  pub operator : row.operator_user_id ≡ e.operator_user_id
  pub reason : row.reason ≡ e.reason
  pub new_balance : balance ≡ balance_of e.user_id w.accounts +ℤ delta
  pub balances :
      (v : String)
      → balance_of v w'.accounts
        ≡ (if str_eq e.user_id v then balance_of v w.accounts +ℤ delta else balance_of v w.accounts)
  pub audit : w'.audit ≡ w.audit

post_entry-Posted :
    (now : ℕ) (id : String) (e : NewEntry) (delta : ℤ) (w w' : Wallet) (i : String) (b : ℤ)
    → post_entry now id e delta w ≡ ok ((i, b), w')
    → Posted e delta w w' i b
unfolding post_entry
post_entry-Posted now id e delta w w' i b h =
    elim (Option-cases (find_by (of_user e.user_id) w.accounts)) [
      | inl missing ↦ absurd (ground arith)
      | inr (found, at) ↦ record {
        row = entry_row id e delta (credit now delta found);
        ledger = ground arith;
        accepted = ground arith;
        row_id = ground arith;
        user = refl;
        kind = refl;
        amount = refl;
        after = ground arith;
        key = refl;
        charged = refl;
        operator = refl;
        reason = refl;
        new_balance = ground (arith, find_by-balance_of e.user_id w.accounts found at);
        balances = λ v. ground (
          arith,
          find_by-balance_of e.user_id w.accounts found at,
          balance_of-credit now delta e.user_id v w.accounts,
        );
        audit = ground arith;
      }
    ]

post_entry-id :
    (now : ℕ) (id : String) (e : NewEntry) (delta : ℤ) (w w' : Wallet) (i : String) (b : ℤ)
    → post_entry now id e delta w ≡ ok ((i, b), w')
    → i ≡ id
unfolding post_entry
post_entry-id now id e delta w w' i b h = ground arith

pub append-Posted :
    (now : ℕ) (id : String) (e : NewEntry) (w w' : Wallet) (i : String) (b : ℤ)
    → append_ledger_entry now id e w ≡ ok ((i, b), w')
    → (delta : ℤ) × (safe_amount e.signed_amount_micro_usd ≡ some delta)
      × (sign_ok e.entry_type delta ≡ true)
      × (lacks_operator e ≡ false)
      × (i ≡ id)
      × Posted e delta w w' i b
unfolding append_ledger_entry
append-Posted now id e w w' i b h = elim (Option-cases (safe_amount e.signed_amount_micro_usd)) [
  | inl unsafe ↦ absurd (ground arith)
  | inr (delta, safe) ↦ (
    delta,
    safe,
    ground arith,
    ground arith,
    post_entry-id now id e delta w w' i b (ground arith),
    post_entry-Posted now id e delta w w' i b (ground arith),
  )
]

-- An entry keeps the accounts and the ledger in step.
pub Posted-IsConsistent :
    (e : NewEntry) (delta : ℤ) (w w' : Wallet) (i : String) (b : ℤ)
    → Posted e delta w w' i b
    → IsConsistent w
    → IsConsistent w'
unfolding sum_for
Posted-IsConsistent e delta w w' i b p c = record {
  balanced = λ v. rw (p.ledger) (
      ground (
        arith,
        p.balances v,
        c.balanced v,
        eq_iff e.user_id v,
        eq_iff p.row.user_id v,
        +ℤ_comm delta (sum_for v w.ledger),
      ));
  running = rw (p.ledger) (
    ground (
      arith,
      eq_iff p.row.user_id p.row.user_id,
      c.balanced e.user_id,
      +ℤ_comm delta (sum_for e.user_id w.ledger),
    ),
    c.running,
  );
  unique = rw (p.ledger) (p.accepted, c.unique);
}

-- An entry that is appended to accounts and ledger in step leaves them so: every balance is the
-- sum of its user's entries, every entry carries the balance it led to, and no two rows clash.
pub append-IsConsistent :
    (now : ℕ) (id : String) (e : NewEntry) (w w' : Wallet) (i : String) (b : ℤ)
    → append_ledger_entry now id e w ≡ ok ((i, b), w')
    → IsConsistent w
    → IsConsistent w'
append-IsConsistent now id e w w' i b h c =
    let (delta, _, _, _, _, p) = append-Posted now id e w w' i b h in
    Posted-IsConsistent e delta w w' i b p c

-- A change that leaves users and balances alone changes no balance.
pub balance_of-keep :
    (p : Account → Bool) (f : Account → Account) (v : String) (rows : List Account)
    → ((a : Account)
        → ((f a).user_id ≡ a.user_id) × ((f a).balance_micro_usd ≡ a.balance_micro_usd))
    → balance_of v (update_where p f rows) ≡ balance_of v rows
unfolding balance_of update_where
balance_of-keep p f v [] keep = refl
balance_of-keep p f v (a ∷ rows) keep = ground (arith, balance_of-keep p f v rows keep, keep a)

-- So it keeps accounts and ledger in step.
pub keep-IsConsistent :
    (w w' : Wallet)
    → ((v : String) → balance_of v w'.accounts ≡ balance_of v w.accounts)
    → w'.ledger ≡ w.ledger
    → IsConsistent w
    → IsConsistent w'
keep-IsConsistent w w' same ledger c = record {
  balanced = λ v. rw (same v, ledger) (c.balanced v);
  running = rw ledger c.running;
  unique = rw ledger c.unique;
}
