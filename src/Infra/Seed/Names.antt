-- ===== src/Infra/Seed/Names.antt =====
-- src/infra/seed/rng/fixtures/names.ts, and the texts that are made of its names.
use Prim.Native.Char.{Char, code}
use Prim.Native.String.{◌++◌ as append}
use money_across_borders.Base.{
  ℕ, zero, suc, ◌/◌, ◌%◌, ltb, ◌==◌, String, List, [], ◌∷◌, Option, none, some, get_elem?,
  if◌then◌else◌,
}
use money_across_borders.Domain.Currency.{translate, to_upper_case}

abbrev pub first_names : List String
first_names =
    "Ana" ∷ "Bruno" ∷ "Carla" ∷ "Diego" ∷ "Elena" ∷ "Fabio" ∷ "Gabriela" ∷ "Hugo" ∷ "Isabela"
    ∷ "Joao" ∷ "Karina" ∷ "Lucas" ∷ "Mariana" ∷ "Nicolas" ∷ "Olivia" ∷ "Pedro" ∷ "Quintino"
    ∷ "Rafaela" ∷ "Samuel" ∷ "Tatiana" ∷ "Ursula" ∷ "Vitor" ∷ "Wanda" ∷ "Xavier" ∷ "Yasmin" ∷ "Zeca"
    ∷ "Amelia" ∷ "Benjamin" ∷ "Clara" ∷ "Daniel" ∷ []

abbrev pub last_names : List String
last_names =
    "Silva" ∷ "Souza" ∷ "Costa" ∷ "Pereira" ∷ "Oliveira" ∷ "Rodrigues" ∷ "Almeida" ∷ "Nascimento"
    ∷ "Carvalho" ∷ "Araujo" ∷ "Ribeiro" ∷ "Martins" ∷ "Barbosa" ∷ "Rocha" ∷ "Dias" ∷ "Monteiro"
    ∷ "Cardoso" ∷ "Teixeira" ∷ "Correia" ∷ "Moreira" ∷ []

abbrev pub email_domains : List String
email_domains = "seed.test" ∷ "moneyacrossborders.test" ∷ "fixtures.test" ∷ []

-- `toLowerCase`, at a text of ASCII letters.
abbrev pub to_lower_case : String → String
to_lower_case String.[] = String.[]
to_lower_case (String.◌∷◌ c s) =
    String.◌∷◌ (translate "ABCDEFGHIJKLMNOPQRSTUVWXYZ" "abcdefghijklmnopqrstuvwxyz" c)
      (to_lower_case s)

abbrev skip_dash : Char → String → String
skip_dash c s = if code c == 45 then s else String.◌∷◌ c s

-- `replace(/-/g, '')`
abbrev without_dashes : String → String
without_dashes String.[] = String.[]
without_dashes (String.◌∷◌ c s) = skip_dash c (without_dashes s)

-- `slice(0, n)`
abbrev slice : ℕ → String → String
slice zero s = String.[]
slice (suc n) String.[] = String.[]
slice (suc n) (String.◌∷◌ c s) = String.◌∷◌ c (slice n s)

unfoldable pub fake_document_id : String → String
fake_document_id fragment = append "SEED-DOC-" (to_upper_case (slice 12 (without_dashes fragment)))

abbrev digits : List String
digits = "0" ∷ "1" ∷ "2" ∷ "3" ∷ "4" ∷ "5" ∷ "6" ∷ "7" ∷ "8" ∷ "9" ∷ []

abbrev text_at : Option String → String
text_at none = ""
text_at (some s) = s

-- The decimal digits of a number, at most as many as the fuel.
abbrev print_digits : ℕ → ℕ → String
print_digits zero n = ""
print_digits (suc fuel) n =
    let front = print_digits fuel (n / 10) in
    append (if ltb n 10 then "" else front) (text_at (get_elem? digits (n % 10)))

-- A safe integer has at most 16 digits.
unfoldable pub print : ℕ → String
print n = print_digits 16 n
