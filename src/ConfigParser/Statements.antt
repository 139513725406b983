-- ===== src/ConfigParser/Statements.antt =====
-- The statements that src/NginxConfigParser.cc builds: `NginxConfigStatement` of
-- include/config_parser.h, and the stack of the configurations that are open.
use bigtable_postgres_blog_s.Base.{List, [], ◌∷◌, ◌++◌}
use bigtable_postgres_blog_s.Base.Text.{Bytes}

-- A statement has its tokens and perhaps a block; a block is a list of statements.
mutual
  pub data NginxConfigStatement : Type 0 where
    statement : List Bytes → ChildBlock → NginxConfigStatement

  pub data ChildBlock : Type 0 where
    no_block : ChildBlock
    block : Statements → ChildBlock

  pub data Statements : Type 0 where
    nil : Statements
    cons : NginxConfigStatement → Statements → Statements

-- `emplace_back(new NginxConfigStatement)`
unfoldable pub add_statement : Statements → Statements
add_statement nil = cons (statement [] no_block) nil
add_statement (cons x xs) = cons x (add_statement xs)

-- `statements_.back()->tokens_.push_back(token)`; of no statement, which is undefined, nothing
unfoldable pub push_token : Bytes → Statements → Statements
push_token token nil = nil
push_token token (cons (statement tokens child) nil) =
    cons (statement (tokens ++ token ∷ []) child) nil
push_token token (cons x (cons y xs)) = cons x (push_token token (cons y xs))

-- The block of the last statement.
unfoldable pub set_block : Statements → Statements → Statements
set_block child nil = nil
set_block child (cons (statement tokens _) nil) = cons (statement tokens (block child)) nil
set_block child (cons x (cons y xs)) = cons x (set_block child (cons y xs))

-- The stack of open configurations, the innermost first, has for each the statements before its open
-- block, which will be the block of the last of them. These are the statements of the whole
-- configuration, where the blocks left open are in place too.
unfoldable pub close_frames : Statements → List Statements → Statements
unfolding set_block
close_frames inner [] = inner
close_frames inner (outer ∷ frames) = close_frames (set_block inner outer) frames
