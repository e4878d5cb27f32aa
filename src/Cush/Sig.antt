-- ===== src/Cush/Sig.antt =====
-- The signal numbers of Linux that the shell names.
use computer_systems_project.Base.{ℕ}

abbrev pub hup : ℕ
hup = 1

abbrev pub int : ℕ
int = 2

abbrev pub quit : ℕ
quit = 3

abbrev pub abrt : ℕ
abrt = 6

abbrev pub fpe : ℕ
fpe = 8

abbrev pub kill : ℕ
kill = 9

abbrev pub segv : ℕ
segv = 11

abbrev pub term : ℕ
term = 15

abbrev pub chld : ℕ
chld = 17

abbrev pub cont : ℕ
cont = 18

abbrev pub stop : ℕ
stop = 19

abbrev pub ttin : ℕ
ttin = 21

abbrev pub ttou : ℕ
ttou = 22
