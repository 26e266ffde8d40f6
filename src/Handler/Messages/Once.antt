-- ===== src/Handler/Messages/Once.antt =====
-- Sending encrypted content again, whose prekeys are spent.
use xlchat_project.RateWindow.{allow}
use xlchat_project.Handler.{World}
use xlchat_project.Handler.Login.{Call}

abbrev admitted_world : World → Call → World
admitted_world w c = record w {
  conn = record w.conn { send_window = (allow w.conn.send_window c.now).0 };
}
