-- ===== src/Matcher/Vocabulary.antt =====
-- The tables of internal/matcherbaseline: normalize.go, nicknames.go, corporate_suffixes.go,
-- person_honorifics.go and transliteration_variants.go. No key stands in a table twice, as the
-- Go compiler checks.
use watchlist_platform.Base.{
  ℕ, Bool, false, ◌||◌, List, [], ◌∷◌, Option, none, some, ◌==◌, if◌then◌else◌,
}
use watchlist_platform.Base.Text.{Text, text, eq_text}

-- map[string]string, by its entries
unfoldable pub lookup : Text → List (Text × Text) → Option Text
unfolding eq_text
lookup t [] = none
lookup t ((key, value) ∷ entries) =
    let later = lookup t entries in if eq_text t key then some value else later

unfoldable pub listed : Text → List Text → Bool
unfolding eq_text
listed t [] = false
listed t (key ∷ keys) = eq_text t key || listed t keys

-- map[rune]string, by its entries
unfoldable pub replacement : ℕ → List (ℕ × Text) → Option Text
replacement r [] = none
replacement r ((key, value) ∷ entries) =
    let later = replacement r entries in if r == key then some value else later

abbrev pub fold_map : List (ℕ × Text)
fold_map =
    (0xc0, text "A")
    ∷ (0xc1, text "A")
    ∷ (0xc2, text "A")
    ∷ (0xc3, text "A")
    ∷ (0xc4, text "A")
    ∷ (0xc5, text "A")
    ∷ (0xc6, text "AE")
    ∷ (0xc7, text "C")
    ∷ (0xc8, text "E")
    ∷ (0xc9, text "E")
    ∷ (0xca, text "E")
    ∷ (0xcb, text "E")
    ∷ (0xcc, text "I")
    ∷ (0xcd, text "I")
    ∷ (0xce, text "I")
    ∷ (0xcf, text "I")
    ∷ (0xd0, text "D")
    ∷ (0xd1, text "N")
    ∷ (0xd2, text "O")
    ∷ (0xd3, text "O")
    ∷ (0xd4, text "O")
    ∷ (0xd5, text "O")
    ∷ (0xd6, text "O")
    ∷ (0xd8, text "O")
    ∷ (0x152, text "OE")
    ∷ (0xd9, text "U")
    ∷ (0xda, text "U")
    ∷ (0xdb, text "U")
    ∷ (0xdc, text "U")
    ∷ (0xdd, text "Y")
    ∷ (0xde, text "TH")
    ∷ (0xdf, text "SS")
    ∷ (0x160, text "S")
    ∷ (0x17d, text "Z")
    ∷ (0x141, text "L")
    ∷ (0x110, text "D")
    ∷ (0x11e, text "G")
    ∷ (0x130, text "I")
    ∷ (0x15e, text "S")
    ∷ (0x10c, text "C")
    ∷ (0x106, text "C")
    ∷ (0x158, text "R")
    ∷ (0x410, text "A")
    ∷ (0x411, text "B")
    ∷ (0x412, text "V")
    ∷ (0x413, text "G")
    ∷ (0x414, text "D")
    ∷ (0x415, text "E")
    ∷ (0x401, text "E")
    ∷ (0x416, text "ZH")
    ∷ (0x417, text "Z")
    ∷ (0x418, text "I")
    ∷ (0x419, text "I")
    ∷ (0x41a, text "K")
    ∷ (0x41b, text "L")
    ∷ (0x41c, text "M")
    ∷ (0x41d, text "N")
    ∷ (0x41e, text "O")
    ∷ (0x41f, text "P")
    ∷ (0x420, text "R")
    ∷ (0x421, text "S")
    ∷ (0x422, text "T")
    ∷ (0x423, text "U")
    ∷ (0x424, text "F")
    ∷ (0x425, text "KH")
    ∷ (0x426, text "TS")
    ∷ (0x427, text "CH")
    ∷ (0x428, text "SH")
    ∷ (0x429, text "SHCH")
    ∷ (0x42b, text "Y")
    ∷ (0x42d, text "E")
    ∷ (0x42e, text "YU")
    ∷ (0x42f, text "YA")
    ∷ (0x42c, text "")
    ∷ (0x42a, text "")
    ∷ []

abbrev pub nickname_to_canonical : List (Text × Text)
nickname_to_canonical =
    (text "BILL", text "WILLIAM")
    ∷ (text "WILL", text "WILLIAM")
    ∷ (text "BILLY", text "WILLIAM")
    ∷ (text "WILLY", text "WILLIAM")
    ∷ (text "BOB", text "ROBERT")
    ∷ (text "BOBBY", text "ROBERT")
    ∷ (text "ROB", text "ROBERT")
    ∷ (text "ROBBIE", text "ROBERT")
    ∷ (text "DICK", text "RICHARD")
    ∷ (text "RICK", text "RICHARD")
    ∷ (text "RICKY", text "RICHARD")
    ∷ (text "RICHIE", text "RICHARD")
    ∷ (text "JIM", text "JAMES")
    ∷ (text "JIMMY", text "JAMES")
    ∷ (text "JACK", text "JOHN")
    ∷ (text "JOHNNY", text "JOHN")
    ∷ (text "TOM", text "THOMAS")
    ∷ (text "TOMMY", text "THOMAS")
    ∷ (text "MIKE", text "MICHAEL")
    ∷ (text "MICKEY", text "MICHAEL")
    ∷ (text "MIKEY", text "MICHAEL")
    ∷ (text "DAVE", text "DAVID")
    ∷ (text "DAVEY", text "DAVID")
    ∷ (text "CHUCK", text "CHARLES")
    ∷ (text "CHARLIE", text "CHARLES")
    ∷ (text "ED", text "EDWARD")
    ∷ (text "EDDIE", text "EDWARD")
    ∷ (text "TED", text "EDWARD")
    ∷ (text "TEDDY", text "EDWARD")
    ∷ (text "TONY", text "ANTHONY")
    ∷ (text "ANDY", text "ANDREW")
    ∷ (text "DREW", text "ANDREW")
    ∷ (text "GREG", text "GREGORY")
    ∷ (text "KEN", text "KENNETH")
    ∷ (text "KENNY", text "KENNETH")
    ∷ (text "LARRY", text "LAWRENCE")
    ∷ (text "JOE", text "JOSEPH")
    ∷ (text "JOEY", text "JOSEPH")
    ∷ (text "PETE", text "PETER")
    ∷ (text "MATT", text "MATTHEW")
    ∷ (text "DAN", text "DANIEL")
    ∷ (text "DANNY", text "DANIEL")
    ∷ (text "NICK", text "NICHOLAS")
    ∷ (text "NICKY", text "NICHOLAS")
    ∷ (text "ALEX", text "ALEXANDER")
    ∷ (text "BEN", text "BENJAMIN")
    ∷ (text "BENNY", text "BENJAMIN")
    ∷ (text "HANK", text "HENRY")
    ∷ (text "HARRY", text "HAROLD")
    ∷ (text "RON", text "RONALD")
    ∷ (text "RONNIE", text "RONALD")
    ∷ (text "STAN", text "STANLEY")
    ∷ (text "WALT", text "WALTER")
    ∷ (text "LIZ", text "ELIZABETH")
    ∷ (text "BETH", text "ELIZABETH")
    ∷ (text "LIZZY", text "ELIZABETH")
    ∷ (text "ELIZA", text "ELIZABETH")
    ∷ (text "BETSY", text "ELIZABETH")
    ∷ (text "PEGGY", text "MARGARET")
    ∷ (text "MEG", text "MARGARET")
    ∷ (text "MAGGIE", text "MARGARET")
    ∷ (text "MARGE", text "MARGARET")
    ∷ (text "KATE", text "KATHERINE")
    ∷ (text "KATIE", text "KATHERINE")
    ∷ (text "KATHY", text "KATHERINE")
    ∷ (text "SUE", text "SUSAN")
    ∷ (text "SUZY", text "SUSAN")
    ∷ (text "SUZANNE", text "SUSAN")
    ∷ (text "JEN", text "JENNIFER")
    ∷ (text "JENNY", text "JENNIFER")
    ∷ (text "PATTY", text "PATRICIA")
    ∷ (text "TRISH", text "PATRICIA")
    ∷ (text "TRICIA", text "PATRICIA")
    ∷ (text "DEB", text "DEBORAH")
    ∷ (text "DEBBIE", text "DEBORAH")
    ∷ (text "CINDY", text "CYNTHIA")
    ∷ (text "BARB", text "BARBARA")
    ∷ (text "BARBIE", text "BARBARA")
    ∷ (text "CARRIE", text "CAROLINE")
    ∷ (text "GINNY", text "VIRGINIA")
    ∷ (text "JOSIE", text "JOSEPHINE")
    ∷ (text "PENNY", text "PENELOPE")
    ∷ (text "SANDY", text "SANDRA")
    ∷ (text "VICKY", text "VICTORIA")
    ∷ (text "WENDY", text "GWENDOLYN")
    ∷ []

abbrev pub corporate_suffix_tokens : List Text
corporate_suffix_tokens =
    (text "LLC")
    ∷ (text "LLP")
    ∷ (text "LP")
    ∷ (text "LTD")
    ∷ (text "LIMITED")
    ∷ (text "INC")
    ∷ (text "INCORPORATED")
    ∷ (text "CORP")
    ∷ (text "CORPORATION")
    ∷ (text "CO")
    ∷ (text "COMPANY")
    ∷ (text "GMBH")
    ∷ (text "AG")
    ∷ (text "KG")
    ∷ (text "GBR")
    ∷ (text "SA")
    ∷ (text "SAS")
    ∷ (text "SARL")
    ∷ (text "SL")
    ∷ (text "SPA")
    ∷ (text "SRL")
    ∷ (text "NV")
    ∷ (text "BV")
    ∷ (text "PLC")
    ∷ (text "PTY")
    ∷ (text "OY")
    ∷ (text "AB")
    ∷ (text "AS")
    ∷ (text "ASA")
    ∷ []

abbrev pub person_honorific_tokens : List Text
person_honorific_tokens =
    (text "MR")
    ∷ (text "MRS")
    ∷ (text "MS")
    ∷ (text "MISS")
    ∷ (text "MX")
    ∷ (text "DR")
    ∷ (text "PROF")
    ∷ (text "PROFESSOR")
    ∷ (text "REV")
    ∷ (text "REVEREND")
    ∷ (text "HON")
    ∷ (text "HONORABLE")
    ∷ (text "SIR")
    ∷ (text "DAME")
    ∷ (text "LORD")
    ∷ (text "LADY")
    ∷ (text "ESQ")
    ∷ (text "ESQUIRE")
    ∷ []

abbrev pub transliteration_variants : List (Text × Text)
transliteration_variants = (text "EL", text "AL") ∷ []

unfoldable pub canonicalize_transliteration_variant : Text → Text
unfolding lookup
canonicalize_transliteration_variant t = elim (lookup t transliteration_variants) [
  | none ↦ t
  | some canonical ↦ canonical
]

unfoldable pub canonicalize_token : Text → Text
unfolding lookup canonicalize_transliteration_variant
canonicalize_token t = elim (lookup t nickname_to_canonical) [
  | none ↦ canonicalize_transliteration_variant t
  | some canonical ↦ canonical
]

unfoldable pub is_corporate_suffix : Text → Bool
unfolding listed
is_corporate_suffix t = listed t corporate_suffix_tokens

unfoldable pub is_person_honorific : Text → Bool
unfolding listed
is_person_honorific t = listed t person_honorific_tokens
