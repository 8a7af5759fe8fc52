-- ===== src/Lock/Server/Calls.antt =====
-- The calls of clients in the order in which they have the server's mutex, and what the server
-- answers or does.
use cse_yet_another_file_sys.Base.{ℕ, Option, List, [], ◌∷◌, Bytes}
use cse_yet_another_file_sys.Lock.Server.{LockServer, Verdict, enter}
use cse_yet_another_file_sys.Lock.Server

pub data Call : Type 0 where
  acquire release : ℕ → Bytes → Call

pub data Reply : Type 0 where
  verdict : Verdict → Reply
  retried : Option Bytes → Reply

unfoldable pub serve : LockServer → Call → Reply × LockServer
serve s (acquire lid id) = let (v, s') = enter s lid id in (verdict v, s')
serve s (release lid id) = let (first, s') = Server.release s lid id in (retried first, s')

unfoldable pub run : LockServer → List Call → List Reply
run s [] = []
run s (c ∷ cs) = (serve s c).0 ∷ run (serve s c).1 cs
