-- ===== src/Client/Serial/Open.antt =====
-- client/source/serial.c: opening the serial device, with the attributes that it is set to.
use ammc.Base.{ℕ, ◌-◌, ◌%◌, ◌^◌, Option, none, some, List, [], ◌∷◌, set, bit_and, bit_or}

-- The constants of termios.h.
pub record Constants : Type 0 where
  pub ixon : ℕ
  pub ixoff : ℕ
  pub ixany : ℕ
  pub brkint : ℕ
  pub icrnl : ℕ
  pub imaxbel : ℕ
  pub ignbrk : ℕ
  pub crtscts : ℕ
  pub parenb : ℕ
  pub cstopb : ℕ
  pub csize : ℕ
  pub echo : ℕ
  pub echoe : ℕ
  pub echok : ℕ
  pub echoctl : ℕ
  pub echoke : ℕ
  pub isig : ℕ
  pub icanon : ℕ
  pub iexten : ℕ
  pub cs8 : ℕ
  pub cread : ℕ
  pub clocal : ℕ
  pub b115200 : ℕ
  pub vmin : ℕ
  pub vtime : ℕ

-- `struct termios`: words of 32 bits, and the special characters.
pub record Termios : Type 0 where
  pub c_iflag : ℕ
  pub c_oflag : ℕ
  pub c_cflag : ℕ
  pub c_lflag : ℕ
  pub c_cc : List ℕ
  pub c_ospeed : ℕ
  pub c_ispeed : ℕ

infixl 40 ◌∣◌
-- The bits of two words, and those of a word that are not in a mask.
abbrev ◌∣◌ : ℕ → ℕ → ℕ
a ∣ b = bit_or a b

abbrev without : ℕ → ℕ → ℕ
without word mask = bit_and word (2 ^ 32 - 1 - mask % 2 ^ 32)

abbrev pub zeroed : List ℕ → List ℕ
zeroed [] = []
zeroed (c ∷ cs) = 0 ∷ zeroed cs

-- What `serial_open` gives: 1 for a name that is null or empty, -1 for a device that cannot be
-- opened, or the descriptor, with the attributes that were set.
pub data Opened : Type 0 where
  refused cannot_open : Opened
  opened : (dev_fd : ℕ) (dev_io : Termios) → Opened

module _ (constants : Constants) where
  open constants use {
    ixon, ixoff, ixany, brkint, icrnl, imaxbel, ignbrk, crtscts, parenb, cstopb, csize, echo, echoe,
    echok, echoctl, echoke, isig, icanon, iexten, cs8, cread, clocal, b115200, vmin, vtime,
  }

  -- The part of `serial_open` between `tcgetattr` and `tcsetattr`.
  unfoldable pub raw_mode : Termios → Termios
  raw_mode dev_io = record {
    c_iflag = without dev_io.c_iflag (ixon ∣ ixoff ∣ ixany ∣ brkint ∣ icrnl ∣ imaxbel) ∣ ignbrk;
    c_oflag = 0;
    c_cflag = without dev_io.c_cflag (crtscts ∣ parenb ∣ cstopb ∣ csize) ∣ (cs8 ∣ cread ∣ clocal);
    c_lflag =
        without dev_io.c_lflag (echo ∣ echoe ∣ echok ∣ echoctl ∣ echoke ∣ isig ∣ icanon ∣ iexten);
    c_cc = set (set (zeroed dev_io.c_cc) vmin 1) vtime 1;
    c_ospeed = b115200;
    c_ispeed = b115200;
  }

  -- `serial_open`, for what `open` and `tcgetattr` give.
  unfoldable pub serial_open : Option (List ℕ) → Option ℕ → Termios → Opened
  serial_open none fd dev_io = refused
  serial_open (some []) fd dev_io = refused
  serial_open (some (c ∷ cs)) none dev_io = cannot_open
  serial_open (some (c ∷ cs)) (some dev_fd) dev_io = opened dev_fd (raw_mode dev_io)
