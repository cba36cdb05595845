-- ===== src/HiveType.antt =====
-- `hive_type` of lib/hivex.h.
use hivex.Base.{ℕ}

abbrev pub none : ℕ
none = 0

abbrev pub string : ℕ
string = 1

abbrev pub expand_string : ℕ
expand_string = 2

abbrev pub binary : ℕ
binary = 3

abbrev pub dword : ℕ
dword = 4

abbrev pub dword_be : ℕ
dword_be = 5

abbrev pub link : ℕ
link = 6

abbrev pub multiple_strings : ℕ
multiple_strings = 7

abbrev pub resource_list : ℕ
resource_list = 8

abbrev pub full_resource_description : ℕ
full_resource_description = 9

abbrev pub resource_requirements_list : ℕ
resource_requirements_list = 10

abbrev pub qword : ℕ
qword = 11
