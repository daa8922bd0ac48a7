-- ===== src/Scanner/Values.antt =====
-- Values as `JSON.stringify` prints them, in front of what follows, but for the strings, which
-- stand in any of their spellings. An atom stands for a number,
-- `true`, `false` or `null`.
use apipool_v.Base.{ℕ, Bool, true, ◌||◌, not, [], ◌∷◌, ◌==◌, All, ◌≡◌}
use apipool_v.Scanner.Text.{Bytes, quote, is_whitespace}
use apipool_v.Scanner.Extract.{is_open, is_close, colon}
use apipool_v.Scanner.Spelling.{Spelling, spell}

mutual
  pub data Value : Type 0 where
    text : Spelling → Value
    atom : Bytes → Value
    array : Values → Value
    object : Members → Value

  pub data Values : Type 0 where
    no_values : Values
    and_value : Value → Values → Values

  pub data Members : Type 0 where
    no_members : Members
    and_member : Spelling → Value → Members → Members

abbrev pub comma : ℕ
comma = 44

abbrev pub write_text : Spelling → Bytes → Bytes
write_text s k = quote ∷ spell s (quote ∷ k)

abbrev pub append : Bytes → Bytes → Bytes
append [] k = k
append (b ∷ bs) k = b ∷ append bs k

unfoldable mutual
  pub print : Value → Bytes → Bytes
  print (text s) k = write_text s k
  print (atom bs) k = append bs k
  print (array vs) k = 91 ∷ print_values vs (93 ∷ k)
  print (object ms) k = 123 ∷ print_members ms (125 ∷ k)

  pub print_values : Values → Bytes → Bytes
  print_values no_values k = k
  print_values (and_value v vs) k = print v (print_more_values vs k)

  pub print_more_values : Values → Bytes → Bytes
  print_more_values no_values k = k
  print_more_values (and_value v vs) k = comma ∷ print v (print_more_values vs k)

  pub print_members : Members → Bytes → Bytes
  print_members no_members k = k
  print_members (and_member key v ms) k = write_text key (colon ∷ print v (print_more_members ms k))

  pub print_more_members : Members → Bytes → Bytes
  print_more_members no_members k = k
  print_more_members (and_member key v ms) k =
      comma ∷ write_text key (colon ∷ print v (print_more_members ms k))

-- No byte of an atom says anything to the scanner.
abbrev pub is_plain : ℕ → Bool
is_plain byte =
    not ((byte == quote) || is_open byte || is_close byte || is_whitespace byte || (byte == comma))

abbrev pub IsAtom : Bytes → Type 0
IsAtom bs = All (λ b. is_plain b ≡ true) bs

unfoldable mutual
  pub IsWell : Value → Type 0
  IsWell (text s) = Unit
  IsWell (atom bs) = IsAtom bs
  IsWell (array vs) = AreWell vs
  IsWell (object ms) = MembersAreWell ms

  pub AreWell : Values → Type 0
  AreWell no_values = Unit
  AreWell (and_value v vs) = IsWell v × AreWell vs

  pub MembersAreWell : Members → Type 0
  MembersAreWell no_members = Unit
  MembersAreWell (and_member key v ms) = IsWell v × MembersAreWell ms
