-- ===== src/Program/Commands/Names.antt =====
-- What a name on the command line stands for.
use mathlib.Core.List.{Memᴰ}
use mcptp.Base.{◌≡◌, refl, true, List, String, concat, distinct, distinct-concat}
use mcptp.Program.Commands.{Command, commands}
use mcptp.Server.Flags as ServerFlags

flags-distinct :
    (upper : String → String) {c : Command}
    → Memᴰ c (commands upper)
    → distinct (concat c.flags) ≡ true
unfolding commands ServerFlags.log_level_flag ServerFlags.bind_flag ServerFlags.port_flag
    ServerFlags.max_connections_flag
flags-distinct upper (Memᴰ.head e) = rw e refl
flags-distinct upper (Memᴰ.tail (Memᴰ.head e)) = rw e refl
flags-distinct upper (Memᴰ.tail (Memᴰ.tail (Memᴰ.head e))) = rw e refl
flags-distinct upper (Memᴰ.tail (Memᴰ.tail (Memᴰ.tail m))) = elim m [ ]

-- A name or an alias stands for one flag of its command at most.
pub flag_unique :
    (upper : String → String) {c : Command} {n : String} {f g : List String}
    → Memᴰ c (commands upper)
    → Memᴰ f c.flags
    → Memᴰ g c.flags
    → Memᴰ n f
    → Memᴰ n g
    → f ≡ g
flag_unique upper {c} m a b p q = distinct-concat c.flags (flags-distinct upper m) a b p q
